-- ===== src/Pipeline/Once.antt =====
-- No signal is supervised twice.
use mathlib.Core.Path.{subst}
use mathlib.Core.HLevel.{⊥_prop}
use mathlib.Core.List.{
  Mem, Perm, Nodup, append_assoc, append-nil, perm_middle, perm_append_singleton, Nodup-cons,
  mem-cons,
}
use mathlib.Core.List.Perm
use mathlib.Core.Logic.Or
use telegram_olymptrade_sign.Prelude.{
  ◌≤◌, ◌<◌, ◌≡◌, ◌≢◌, refl, sym, ap, ◌∙◌, none, String, List, [], ◌∷◌, ◌++◌, map, arith, length,
  inl, inr,
}
use telegram_olymptrade_sign.Config.{Time}
use telegram_olymptrade_sign.Domain.Signal.{Signal}
use telegram_olymptrade_sign.Store.Rows.{Db}
use telegram_olymptrade_sign.Store.Integrity.{Write, HasSignal, apply-HasSignal}
use telegram_olymptrade_sign.Telegram.Listener.{Message, Env, Intake, read_event, process_message}
use telegram_olymptrade_sign.Store.Statements.{get_signal}
use telegram_olymptrade_sign.Telegram.Known.{apply_reading-HasSignal}
use telegram_olymptrade_sign.Pipeline.Waiting.{
  put_perm, last_perm, length-snoc, middle≢nil, Gives, apply_reading-Gives,
}
use telegram_olymptrade_sign.Pipeline.{
  System, running, stopped, handled, written, written, put_done, spawned, discarded, cancelled,
  reraised, Step, handles, writes, puts, gets, ends, cancels, reraises, Reach, here, next,
  signals_queue_maxsize,
}

-- The signals that were put, wait to be put, or have had a task.
abbrev pub all_signals : System → List Signal
all_signals s = s.created ++ (s.queue ++ s.blocked)

abbrev pub ids : List Signal → List String
ids = map (λ s. s.signal_id)

pub record IsOnce (s : System) : Type 0 where
  pub idle : s.intake.queue ≡ []
  pub distinct : Nodup (ids (all_signals s))
  pub recorded : (id : String) → Mem id (ids (all_signals s)) → HasSignal s.intake.db id
  pub balanced : Perm s.created (s.active ++ s.ended)
  pub bounded : length s.queue ≤ signals_queue_maxsize
  pub drained : s.phase ≡ stopped → s.active ≡ []

module _ (xs ys : List Signal) (p : Perm xs ys) where
  ids-Perm : Perm (ids xs) (ids ys)
  ids-Perm = Perm.map (λ s. s.signal_id) p

  distinct-Perm : Nodup (ids xs) → Nodup (ids ys)
  distinct-Perm h = Perm.nodup ids-Perm h

  recorded-Perm :
      (a b : Db)
      → ((id : String) → HasSignal a id → HasSignal b id)
      → ((id : String) → Mem id (ids xs) → HasSignal a id)
      → (id : String) → Mem id (ids ys)
      → HasSignal b id
  recorded-Perm a b keep h id m = keep id (h id ((Perm.mem_iff ids-Perm).1 m))

running≢stopped : running ≢ stopped
running≢stopped e = cc

module _ (s : System) (h : IsOnce s) (j : Intake) where
  abbrev taken_over : System
  taken_over = record s { intake = record j { queue = [] }; blocked = s.blocked ++ j.queue }

  abbrev Keeps : Type 0
  Keeps = (id : String) → HasSignal s.intake.db id → HasSignal j.db id

  kept_perm : j.queue ≡ [] → Perm (all_signals s) (all_signals taken_over)
  kept_perm nothing = rw (nothing, append-nil s.blocked) (Perm.refl (all_signals s))

  new_perm : (x : Signal) → j.queue ≡ x ∷ [] → Perm (x ∷ all_signals s) (all_signals taken_over)
  new_perm x one = rw one (last_perm s.created s.queue s.blocked x)

  -- A signal without a row is none of the signals so far.
  is_new :
      (x : Signal) → get_signal x.signal_id s.intake.db ≡ none → Nodup (ids (x ∷ all_signals s))
  is_new x new = Nodup-cons.1 ((λ m. h.recorded x.signal_id m new), h.distinct)

  recorded_too :
      (x : Signal)
      → Keeps
      → HasSignal j.db x.signal_id
      → (id : String) → Mem id (ids (x ∷ all_signals s))
      → HasSignal j.db id
  recorded_too x keep has id m missing =
      Or.elim {A = id ≡ x.signal_id} {B = Mem id (ids (all_signals s))} ⊥_prop (mem-cons.0 m)
        (λ e. has (subst (λ k. get_signal k j.db ≡ none) e missing))
        (λ r. keep id (h.recorded id r) missing)

  taken_over-IsOnce : Keeps → Gives s.intake j → IsOnce taken_over
  taken_over-IsOnce keep (inl nothing) = record {
    idle = refl;
    distinct =
        distinct-Perm (all_signals s) (all_signals taken_over) (kept_perm nothing) h.distinct;
    recorded =
        recorded-Perm (all_signals s) (all_signals taken_over) (kept_perm nothing) s.intake.db j.db
          keep h.recorded;
    balanced = h.balanced;
    bounded = h.bounded;
    drained = h.drained;
  }
  taken_over-IsOnce keep (inr (x, one, new, has)) = record {
    idle = refl;
    distinct =
        distinct-Perm (x ∷ all_signals s) (all_signals taken_over) (new_perm x one) (is_new x new);
    recorded =
        recorded-Perm (x ∷ all_signals s) (all_signals taken_over) (new_perm x one) j.db j.db
          (λ id k. k) (recorded_too x keep has);
    balanced = h.balanced;
    bounded = h.bounded;
    drained = h.drained;
  }

module _ (env : Env) (s : System) (h : IsOnce s) where
  handled-IsOnce : (event : Message) (received : Time) → IsOnce (handled env event received s)
  unfolding handled process_message
  handled-IsOnce event received =
      let r = read_event env event received in
      taken_over-IsOnce s h (process_message env event received s.intake)
        (λ id. apply_reading-HasSignal event received r s.intake id)
        (apply_reading-Gives event received r s.intake h.idle)

  written-IsOnce : (w : Write) → IsOnce (written env w s)
  unfolding written
  written-IsOnce w = record {
    idle = h.idle;
    distinct = h.distinct;
    recorded = λ id m. apply-HasSignal env.sha1_hex w s.intake.db id (h.recorded id m);
    balanced = h.balanced;
    bounded = h.bounded;
    drained = h.drained;
  }

  put_done-IsOnce :
      (before : List Signal) (x : Signal) (after : List Signal)
      → s.blocked ≡ before ++ x ∷ after
      → length s.queue < signals_queue_maxsize
      → IsOnce (put_done x (before ++ after) s)
  unfolding put_done
  put_done-IsOnce before x after e room =
      let p : Perm (all_signals s) (all_signals (put_done x (before ++ after) s)) =
        rw e (Perm.append_left s.created (put_perm s.queue before after x)) in
      record {
        idle = h.idle;
        distinct = distinct-Perm _ _ p h.distinct;
        recorded = recorded-Perm _ _ p s.intake.db s.intake.db (λ id k. k) h.recorded;
        balanced = h.balanced;
        bounded = omega (arith, length-snoc s.queue x);
        drained = h.drained;
      }

  spawned-IsOnce :
      (x : Signal) (rest : List Signal)
      → s.phase ≡ running
      → s.queue ≡ x ∷ rest
      → IsOnce (spawned x rest s)
  unfolding spawned
  spawned-IsOnce x rest goes e =
      let p : Perm (all_signals s) (all_signals (spawned x rest s)) =
        rw (e, append_assoc s.created (x ∷ []) (rest ++ s.blocked)) (Perm.refl _) in
      record {
        idle = h.idle;
        distinct = distinct-Perm _ _ p h.distinct;
        recorded = recorded-Perm _ _ p s.intake.db s.intake.db (λ id k. k) h.recorded;
        balanced = Perm.trans (perm_append_singleton x s.created) (Perm.cons x h.balanced);
        bounded = omega (arith, h.bounded, ap length e);
        drained = λ st. absurd (running≢stopped (sym goes ∙ st));
      }

  discarded-IsOnce :
      (before : List Signal) (x : Signal) (after : List Signal)
      → s.active ≡ before ++ x ∷ after
      → IsOnce (discarded x (before ++ after) s)
  unfolding discarded
  discarded-IsOnce before x after e = record {
    idle = h.idle;
    distinct = h.distinct;
    recorded = h.recorded;
    balanced = Perm.trans h.balanced (
        rw e (
          Perm.trans (Perm.append_right s.ended (perm_middle before after))
            (Perm.symm (perm_middle (before ++ after) s.ended))));
    bounded = h.bounded;
    drained = λ st. absurd (middle≢nil before after x (sym e ∙ h.drained st));
  }

Step-IsOnce : (env : Env) (s t : System) → IsOnce s → Step env s t → IsOnce t
unfolding cancelled reraised
Step-IsOnce env s t h (handles event received) = handled-IsOnce env s h event received
Step-IsOnce env s t h (writes w) = written-IsOnce env s h w
Step-IsOnce env s t h (puts before x after e room) = put_done-IsOnce env s h before x after e room
Step-IsOnce env s t h (gets x rest goes e) = spawned-IsOnce env s h x rest goes e
Step-IsOnce env s t h (ends before x after e) = discarded-IsOnce env s h before x after e
Step-IsOnce env s t h (cancels goes) = record {
  idle = h.idle;
  distinct = h.distinct;
  recorded = h.recorded;
  balanced = h.balanced;
  bounded = h.bounded;
  drained = λ st. cc;
}
Step-IsOnce env s t h (reraises goes empty) = record {
  idle = h.idle;
  distinct = h.distinct;
  recorded = h.recorded;
  balanced = h.balanced;
  bounded = h.bounded;
  drained = λ st. empty;
}

-- Whatever events arrive, in whatever order the handlers, the scheduler and the supervisors run, and
-- wherever it is cancelled, a process that starts with a task for each of some signals that have rows has
-- at most one task for each signal in its whole life, whether the signal waits, runs or has ended. Each has
-- a row; the queue holds at most 1000 signals; every task is in flight or has ended; and once
-- `Scheduler.run` has ended, none is in flight.
pub Reach-IsOnce : (env : Env) (s t : System) → IsOnce s → Reach env s t → IsOnce t
Reach-IsOnce env s t h here = h
Reach-IsOnce env s t h (next {t = u} r st) = Step-IsOnce env u t (Reach-IsOnce env s u h r) st

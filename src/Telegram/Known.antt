-- ===== src/Telegram/Known.antt =====
-- What becomes of a signal that the listener reads, new or already known.
use mathlib.Core.Path.{subst}
use Prim.Native.String.{String}
use telegram_olymptrade_sign.Prelude.{◌≡◌, List, [], ◌∷◌, Option-cases, inl, inr}
use telegram_olymptrade_sign.Prelude.Eq.{string_eq}
use telegram_olymptrade_sign.Config.{Time}
use telegram_olymptrade_sign.Domain.Signal.{Signal}
use telegram_olymptrade_sign.Store.Statements.{get_signal}
use telegram_olymptrade_sign.Store.Integrity.{apply, HasSignal, apply-HasSignal}
use telegram_olymptrade_sign.Telegram.Listener.{
  Message, Env, Intake, Reading, skipped, failed, out_of_window, signal, resolver_error,
  value_error_raised, persist, read_event, apply_reading, process_message,
}
use telegram_olymptrade_sign.Telegram.Intakes.{
  Step, arrives, writes, step, listen, persist-known, persist-HasSignal, new_row-HasSignal,
  found-HasSignal,
}

pub apply_reading-HasSignal :
    (event : Message) (received : Time) (r : Reading) (i : Intake) (id : String)
    → HasSignal i.db id
    → HasSignal (apply_reading event received r i).db id
unfolding apply_reading
apply_reading-HasSignal event received skipped i id h = h
apply_reading-HasSignal event received (failed reason text) i id h = h
apply_reading-HasSignal event received (out_of_window hhmm t) i id h = h
apply_reading-HasSignal event received (signal s) i id h = persist-HasSignal s i id h
apply_reading-HasSignal event received resolver_error i id h = h
apply_reading-HasSignal event received value_error_raised i id h = h

listen-HasSignal :
    (env : Env) (steps : List Step) (i : Intake) (id : String)
    → HasSignal i.db id
    → HasSignal (listen env steps i).db id
unfolding listen step process_message
listen-HasSignal env [] i id h = h
listen-HasSignal env (arrives event received ∷ ss) i id h =
    listen-HasSignal env ss (process_message env event received i) id
      (apply_reading-HasSignal event received (read_event env event received) i id h)
listen-HasSignal env (writes w ∷ ss) i id h =
    listen-HasSignal env ss (record i { db = apply env.sha1_hex w i.db }) id
      (apply-HasSignal env.sha1_hex w i.db id h)

known_after : (s : Signal) (i : Intake) → HasSignal (persist s i).db s.signal_id
known_after s i = elim (Option-cases (get_signal s.signal_id i.db)) [
  | inl new ↦ new_row-HasSignal s i new
  | inr (row, e) ↦ persist-HasSignal s i s.signal_id (found-HasSignal s.signal_id i.db row e)
]

-- Once an event has been read as a signal, an event that is read as a signal of the same id changes
-- nothing at all, whatever has happened in between.
pub same_signal_ignored :
    (env : Env) (first second : Message) (t1 t2 : Time) (s1 s2 : Signal) (steps : List Step)
    (i : Intake)
    → read_event env first t1 ≡ signal s1
    → read_event env second t2 ≡ signal s2
    → s1.signal_id ≡ s2.signal_id
    → (let j = listen env steps (process_message env first t1 i) in
        process_message env second t2 j ≡ j)
unfolding process_message apply_reading
same_signal_ignored env first second t1 t2 s1 s2 steps i r1 r2 e =
    let j = listen env steps (process_message env first t1 i) in
    rw (process_message, r2)
      (persist-known s2 j (
        subst (λ id. HasSignal j.db id) e
          (listen-HasSignal env steps (process_message env first t1 i) s1.signal_id
            (rw (process_message, r1, apply_reading) (known_after s1 i)))))

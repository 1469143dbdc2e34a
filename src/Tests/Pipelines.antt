-- ===== src/Tests/Pipelines.antt =====
-- A process with one new signal: its handler waits, the scheduler takes it and is cancelled; then the handlers
-- of such a process.
use mathlib.Core.HLevel.{⊥_prop}
use mathlib.Core.Path.{subst}
use mathlib.Core.List.{Mem, Nodup-cons, Nodup-nil, mem-cons, not-mem-nil}
use mathlib.Core.List.Perm
use mathlib.Core.Logic.Or
use telegram_olymptrade_sign.Prelude.{
  ℕ, ◌≡◌, refl, some, none, String, List, [], ◌∷◌, ◌++◌, arith, false, if◌then◌else◌, ◌==◌,
}
use telegram_olymptrade_sign.Prelude.Table.{select}
use telegram_olymptrade_sign.Config.{Time, seconds}
use telegram_olymptrade_sign.Domain.Signal.{Signal}
use telegram_olymptrade_sign.Domain.Signal.Parser.{FailureReason}
use telegram_olymptrade_sign.Store.Rows.{Db}
use telegram_olymptrade_sign.Store.Statements.{pending_row, get_signal, get_active_signals}
use telegram_olymptrade_sign.Store.Integrity.{IsValid, HasSignal}
use telegram_olymptrade_sign.Telegram.Listener.{signal, failed, read_event, process_message}
use telegram_olymptrade_sign.Telegram.Connection.{
  EventKind, new_message, message_edited, Connection, Handler, on_new_message, on_message_edited,
  new_connection, connect, register_handlers, add_message_handler, deliver, handled_twice,
}
use telegram_olymptrade_sign.Pipeline.{
  System, running, put_done, spawned, discarded, cancelled, reraised, puts, gets, ends, cancels,
  reraises, Reach, here, next,
}
use telegram_olymptrade_sign.Pipeline.Once.{IsOnce, ids, Reach-IsOnce}
use telegram_olymptrade_sign.Pipeline.Restart.{Others, pending_lost}
use telegram_olymptrade_sign.Tests.Listener.{
  listening, sample_message, sample_time, empty_intake, read_at, sample_read,
}

abbrev new_signal : Signal
new_signal = read_at sample_time

abbrev one_row : Db
one_row = record { signals = pending_row new_signal ∷ []; stages = []; daily_summary = [] }

abbrev waiting : System
waiting = record {
  intake = record empty_intake { db = one_row };
  blocked = new_signal ∷ [];
  queue = [];
  phase = running;
  active = [];
  created = [];
  ended = [];
}

row_found : get_signal "EUR/JPY|10:5" one_row ≡ some (pending_row new_signal)
unfolding get_signal
row_found = refl

only_id : (id : String) → Mem id (ids (new_signal ∷ [])) → HasSignal one_row id
only_id id m missing =
    Or.elim {A = id ≡ "EUR/JPY|10:5"} {B = Mem id []} ⊥_prop (mem-cons.0 m)
      (λ e. cc (row_found, subst (λ k. get_signal k one_row ≡ none) e missing)) not-mem-nil

waiting-IsOnce : IsOnce waiting
waiting-IsOnce = record {
  idle = refl;
  distinct = Nodup-cons.1 (not-mem-nil, Nodup-nil);
  recorded = only_id;
  balanced = Perm.nil;
  bounded = omega arith;
  drained = λ e. cc;
}

abbrev taken : System
taken = spawned new_signal [] (put_done new_signal [] waiting)

abbrev over : System
over = reraised (discarded new_signal [] (cancelled taken))

taken-Reach : Reach listening waiting taken
unfolding put_done
taken-Reach =
    next (next here (puts [] new_signal [] refl (omega arith))) (gets new_signal [] refl refl)

over-Reach : Reach listening waiting over
unfolding put_done spawned cancelled discarded
over-Reach =
    next (next (next taken-Reach (cancels refl)) (ends [] new_signal [] refl)) (reraises refl refl)

Reach-IsOnce_example : IsOnce over
Reach-IsOnce_example = Reach-IsOnce listening waiting over waiting-IsOnce over-Reach

one_row-IsValid : IsValid one_row
unfolding select
one_row-IsValid = record {
  signals_keyed = (refl, tt);
  stages_keyed = tt;
  days_keyed = tt;
  owned = tt;
}

pending_lost_example :
    Others "EUR/JPY|10:5" (get_active_signals one_row)
    × (process_message listening sample_message sample_time waiting.intake ≡ waiting.intake)
pending_lost_example =
    pending_lost listening sample_message sample_time new_signal waiting.intake
      (pending_row new_signal) one_row-IsValid row_found refl sample_read

abbrev wired : Connection
wired = (connect false new_connection).1

abbrev wired_handlers : List (EventKind × Handler)
wired_handlers =
    (new_message, on_new_message)
    ∷ (message_edited, on_new_message)
    ∷ (new_message, on_message_edited)
    ∷ (message_edited, on_message_edited)
    ∷ []

wired_registered : (register_handlers wired).1.client ≡ some wired_handlers
unfolding connect register_handlers add_message_handler
wired_registered = refl

wired_fresh : wired.client ≡ some []
unfolding connect
wired_fresh = refl

abbrev two_times : ℕ → Time
two_times n = if n == 0 then sample_time else seconds 39_010

handled_twice_example :
    let j =
      deliver listening message_edited sample_message two_times 0 wired_handlers empty_intake in
    (j
      ≡ process_message listening sample_message
          (two_times 1)
          (process_message listening sample_message (two_times 0) empty_intake))
    × ((reason : FailureReason) (text : String)
        → read_event listening sample_message (two_times 0) ≡ failed reason text
        → read_event listening sample_message (two_times 1) ≡ failed reason text
        → j.parse_failures ≡ ([] ++ ((text, reason) ∷ [])) ++ ((text, reason) ∷ []))
    × ((s1 s2 : Signal)
        → read_event listening sample_message (two_times 0) ≡ signal s1
        → read_event listening sample_message (two_times 1) ≡ signal s2
        → s1.signal_id ≡ s2.signal_id
        → j ≡ process_message listening sample_message (two_times 0) empty_intake)
handled_twice_example =
    handled_twice listening message_edited sample_message two_times wired empty_intake
      wired_handlers wired_fresh wired_registered

-- ===== src/Scheduler/Adopt.antt =====
-- `Scheduler.adopt` and `Scheduler.record_timeout` of scheduler/trigger.py. The task that `adopt`
-- starts is run at once, with the fuel that Scheduler/Cascade.antt proves to be enough.
use telegram_olymptrade_sign.Prelude.{ℕ, ◌+◌, ◌*◌, Option, none, some, String, if◌then◌else◌}
use telegram_olymptrade_sign.Prelude.Int.{pos}
use telegram_olymptrade_sign.Config.{Time, seconds}
use telegram_olymptrade_sign.Domain.Gale.{Stage, initial, gale1, gale2, amount_for_stage}
use telegram_olymptrade_sign.Domain.Signal.{Signal}
use telegram_olymptrade_sign.Domain.State.{
  SignalState, timeout, result_event, transition, is_terminal, is_placed,
}
use telegram_olymptrade_sign.Store.Rows.{SignalRow}
use telegram_olymptrade_sign.Store.Statements.{get_signal, update_signal_state}
use telegram_olymptrade_sign.Scheduler.World.{Env, Exec, pure, gets, ◌>>=◌, ◌>>◌, write, now_unix}
use telegram_olymptrade_sign.Scheduler.Limits.{successful}
use telegram_olymptrade_sign.Scheduler.Supervisor.{run}

abbrev pub stage_offset : Stage → ℕ
stage_offset initial = 0
stage_offset gale1 = 1
stage_offset gale2 = 2

-- The signal that `adopt` rebuilds from a row.
abbrev pub signal_of_row : SignalRow → Signal
signal_of_row row = record {
  signal_id = row.signal_id;
  pair = row.pair;
  direction = row.direction;
  trigger_hhmm = row.trigger_hhmm;
  expiration_seconds = row.expiration_seconds;
  received_at_unix = row.received_at_unix;
  source_message_id = row.source_message_id;
  source_chat_id = row.source_chat_id;
  raw_text = row.raw_text;
  trigger_unix_initial = row.trigger_ts_unix;
  trigger_unix_gale1 = row.trigger_ts_unix + seconds row.expiration_seconds;
  trigger_unix_gale2 = row.trigger_ts_unix + 2 * seconds row.expiration_seconds;
}

-- The state that `record_timeout` rebuilds for a stage.
abbrev pub state_of_row : Env → SignalRow → Stage → SignalState
state_of_row env row stage =
    let trigger_unix = row.trigger_ts_unix + stage_offset stage * seconds row.expiration_seconds in
    record {
      signal_id = row.signal_id;
      pair = row.pair;
      direction = row.direction;
      state = row.status;
      stage = some stage;
      amount = amount_for_stage stage env.config;
      trigger_unix = trigger_unix;
      expires_at_unix = trigger_unix + seconds row.expiration_seconds;
      result = none;
      cumulative_pnl = pos 0;
      error_reason = row.error_reason;
    }

module _ (env : Env) where
  abbrev S : Type 0
  S = env.broker.St

  unfoldable pub adopt : SignalRow → Exec S Unit
  adopt row = if is_terminal row.status then pure tt else run env (signal_of_row row) 4

  unfoldable pub adopt_if_found : Option SignalRow → Exec S Unit
  adopt_if_found none = pure tt
  adopt_if_found (some row) = adopt row

  unfoldable pub timeout_applied : String → Time → Option SignalState → Exec S Unit
  timeout_applied signal_id now_wall none = pure tt
  timeout_applied signal_id now_wall (some new_state) = do
    write (update_signal_state signal_id new_state.state new_state.error_reason now_wall)
    updated_row ← gets (λ w. get_signal signal_id w.db)
    if is_placed new_state.state then adopt_if_found updated_row else pure tt

  unfoldable pub timeout_of_row : String → Stage → Option SignalRow → Exec S Unit
  unfolding timeout_applied
  timeout_of_row signal_id stage none = pure tt
  timeout_of_row signal_id stage (some row) = do
    now_wall ← now_unix env
    timeout_applied signal_id now_wall (
        successful
          (transition (state_of_row env row stage) (result_event timeout now_wall) env.config))

  unfoldable pub record_timeout : String → Stage → Exec S Unit
  record_timeout signal_id stage = do
    signal_row ← gets (λ w. get_signal signal_id w.db)
    timeout_of_row signal_id stage signal_row

-- ===== src/Lib.antt =====
-- The signal copier (src/signal_copier/): from a message of the channel to the signal, the trades of its
-- cascade and the tables that they leave, the recovery after a restart, and the checks of a soak run.
--
-- The listener takes the messages of one channel, parses each, and puts a new signal into the tables and
-- on a queue. A signal names a pair, a direction and a time. Its supervisor waits for the time, places a trade,
-- waits for the result and, after a loss, places up to two more trades (gales) with larger stakes. The
-- state of the cascade is a pure state machine; the supervisor drives it, writes each step to the
-- tables and tells a notifier. After a restart, recovery reads the rows of unfinished cascades and hands
-- each to the scheduler.
--
-- - Config.antt: the settings of src/signal_copier/config.py and the units. A time is a natural number of
--   microseconds, a stake a number of cents, a profit an integer in hundredths of a cent (so that the
--   payout of 92 % is exact). The code uses floats for times, and the database
--   keeps the profits of a stage and of a day as DOUBLE PRECISION; their rounding is not modelled.
-- - Domain/Signal/: the parser of domain/signal.py. Chars has the character classes of its patterns,
--   Parser the patterns and `parse_signal`, read over the characters of a text from left to right. Every
--   part of the patterns but the `\s*$` at their ends is followed by something that it cannot match, so
--   reading the longest run is what the regular expressions do. Times, Message, Digits, Lines, RoundTrip and
--   Sound have the theorems.
-- - Domain/Signal.antt, Domain/Gale.antt, Domain/State.antt: domain/signal.py (the Signal record),
--   domain/gale.py and domain/state.py. `transition` is split by status, event and result; the
--   messages of refused events are data. Under Domain/State/: Invariant (what a state of a cascade
--   is), Steps (sequences of events), Windows (times).
-- - Store/Rows.antt, Store/Statements.antt: infra/db_rows.py, migrations/001_initial.sql and
--   infra/state_store.py. A method is a function of the three tables; a table is a list of rows.
--   A conflict on a key and the foreign key of `stages` are results. `sha1` is a parameter. The other
--   files under Store/ hold what readers see after writes and the integrity of the tables.
-- - Broker.antt: the Broker protocol of broker/base.py as a record: a type of states, place and
--   wait_result. The theorems hold for every broker.
-- - Notify.antt: the notifications of notify/protocol.py that the scheduler sends, as data.
-- - Scheduler/World.antt, Scheduler/Limits.antt, Scheduler/Stages.antt, Scheduler/Supervisor.antt:
--   SignalSupervisor of scheduler/trigger.py (its limits, the parts of a round, the loop and `run`) in a
--   monad with the tables, the broker, the clock and a trace of orders, waits and notifications;
--   an exception is an outcome. A parameter of the environment says what other tasks do to the tables
--   during each wait, which of the notifications that are awaited directly raise, what the clocks
--   read, and the date of a moment in the configured time zone. The loop of `_drive_cascade` runs on
--   fuel of four rounds; a cascade has at most three, and Scheduler/Cascade.antt proves that the fuel
--   never runs out. Scheduler/Triple.antt has the rule of `do`; Shows, Ladder, Landing, Firing and
--   Results carry the proof through a round, and Runs has the theorems on whole runs;
--   AuthError has the cascade whose broker refuses every order, Played and Ends the one that keeps to
--   its times, by the reference of Scheduler/Verdict.antt, also over the broker of a dry run.
-- - Scheduler/Adopt.antt: Scheduler.adopt and Scheduler.record_timeout. The task that adopt creates is
--   run at once.
-- - Recovery.antt: recovery.py; Recovery/Laws.antt has what it does to a row,
--   Calm and Counts what a whole recovery does.
-- - Broker/Retry.antt, Broker/Retry/Laws.antt: broker/reconnect.py. The delay is exact, in parts of a
--   microsecond that the resolution of the random numbers gives.
-- - Broker/DryRun.antt: broker/dry_run.py, as an instance of the Broker record.
-- - Telegram/Client.antt: the settings and the reconnect loop of telegram/client.py, over the ends of the
--   calls of run_until_disconnected so far. Telegram/Connection.antt: its other methods, and the handlers
--   that __main__.py registers.
-- - Broker/Mt5.antt, Broker/Mt5/: broker/mt5.py over a record for the terminal, as an instance of the
--   Broker record. How many polls end within a timeout is a parameter. Scheduler/NoWins.antt and
--   Scheduler/Unwon.antt follow a cascade whose broker never reports a win.
-- - Notify/: notify/telegram_dm.py. Money and Text have how amounts are printed and the messages of a
--   trade, Sending the other messages and _send, Reconnects those on connections; Printed and Announced
--   what they tell. Notify/Logged.antt: the NoOpNotifier of notify/protocol.py, and Told its log.
-- - Clock.antt: infra/clock.py with the time zone as a record of functions.
-- - Telegram/Channel.antt, Telegram/Listener.antt: telegram/channel_resolver.py and
--   telegram/listener.py; Substring, Readings, Intakes and Known have the theorems, over sequences of
--   messages between which the other tasks write to the tables.
-- - Settings.antt, Settings/Demo.antt: the checks of config.py on the settings, and what they mean for
--   the broker that __main__.py opens.
-- - App.antt, App/Exits.antt: __main__.py over how each of its calls ends.
-- - Soak.antt, Soak/: the nine checks of tools/soak_assertions.py and what they mean.
-- - Soak/Env.antt, Soak/Driver.antt, Soak/Probe.antt: tools/soak.py; the settings that it hands to the
--   application, its run from the restart to the exit code, and its liveness probe. Soak/Liveness.antt has
--   what the check of soak_assertions.py makes of the probe.
-- - Telegram/Auth.antt, Telegram/Auth/: telegram/auth.py over how each of its calls ends.
-- - Pipeline.antt, Pipeline/: the listener, the queue and Scheduler.run as one process, whose tasks are steps
--   in any order. Waiting and Once follow the signals through it, Shutdown its end, Restart what a
--   process on the same tables does next.
-- - Database.antt, Database/Redaction.antt: infra/db.py; the patterns are read over characters.
-- - Logging.antt, Logging/: infra/log.py over loguru as a record of operations with laws; Handlers
--   has the handlers of the standard library's loggers.
-- - Replay.antt, Replay/Delivery.antt: replay.py, from the fixture to the listener.
-- - Preflight.antt, Preflight/Passing.antt: tools/mt5_preflight.py over how the calls of the terminal end.
--
-- Not modelled: cancellation inside a supervisor, failures of the database, the layout of log lines but for the
-- notifier's, and of the soak run the command line.
pub mod Prelude
pub mod Config
pub mod Domain
pub mod Store
pub mod Notify
pub mod Broker
pub mod Scheduler
pub mod Recovery
pub mod Clock
pub mod Telegram
pub mod Soak
pub mod App
pub mod Settings
pub mod Database
pub mod Logging
pub mod Pipeline
pub mod Preflight
pub mod Replay
pub mod Tests

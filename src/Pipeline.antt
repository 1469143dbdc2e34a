-- ===== src/Pipeline.antt =====
-- The process that __main__.py puts together out of the listener, the queue and `Scheduler` of
-- scheduler/trigger.py: its tasks as steps in any order. A handler that has written the row of a new
-- signal waits until the queue has room; which of the waiting handlers goes first is open.
pub mod Waiting
pub mod Once
pub mod Shutdown
pub mod Restart
use telegram_olymptrade_sign.Prelude.{ℕ, ◌+◌, ◌<◌, ◌≡◌, List, [], ◌∷◌, ◌++◌, length}
use telegram_olymptrade_sign.Config.{Time}
use telegram_olymptrade_sign.Domain.Signal.{Signal}
use telegram_olymptrade_sign.Store.Integrity.{Write, apply}
use telegram_olymptrade_sign.Telegram.Listener.{Message, Env, Intake, process_message}

-- `_SIGNALS_QUEUE_MAXSIZE`
abbrev pub signals_queue_maxsize : ℕ
signals_queue_maxsize = 1000

-- The loop of `Scheduler.run`: it takes signals; it has been cancelled and waits for its tasks; it has
-- ended.
pub data Phase : Type 0 where
  running stopping stopped : Phase

-- `intake` has the tables and what the listener logs, and its `queue` is empty between two events;
-- `blocked` has the signals whose handlers wait in `put`, `active` the tasks of `_active_tasks`. The signals that a task
-- was created for, and those whose task has ended, are kept to speak of them.
pub record System : Type 0 where
  pub intake : Intake
  pub blocked : List Signal
  pub queue : List Signal
  pub phase : Phase
  pub active : List Signal
  pub created : List Signal
  pub ended : List Signal

-- `_process_message` up to `put`.
unfoldable pub handled : Env → Message → Time → System → System
unfolding process_message
handled env event received s =
    let i = process_message env event received s.intake in
    record s { intake = record i { queue = [] }; blocked = s.blocked ++ i.queue }

-- The statements of the supervisors.
unfoldable pub written : Env → Write → System → System
written env w s = record s { intake = record s.intake { db = apply env.sha1_hex w s.intake.db } }

-- The end of a `put`.
unfoldable pub put_done : Signal → List Signal → System → System
put_done signal others s = record s { blocked = others; queue = s.queue ++ (signal ∷ []) }

-- One round of the loop of `run`: `get`, `create_task` and `add`.
unfoldable pub spawned : Signal → List Signal → System → System
spawned signal rest s = record s {
  queue = rest;
  active = signal ∷ s.active;
  created = s.created ++ (signal ∷ []);
}

-- `_active_tasks.discard`, when a task is done.
unfoldable pub discarded : Signal → List Signal → System → System
discarded signal others s = record s { active = others; ended = signal ∷ s.ended }

-- CancelledError in `get`: every task is cancelled, and `gather` waits for them.
unfoldable pub cancelled : System → System
cancelled s = record s { phase = stopping }

-- The end of `gather`, and of `run`.
unfoldable pub reraised : System → System
reraised s = record s { phase = stopped }

-- `active_task_count`
unfoldable pub active_task_count : System → ℕ
active_task_count s = length s.active

pub data Step (env : Env) (s : System) : System → Type 0 where
  handles : (event : Message) (received : Time) → Step env s (handled env event received s)
  writes : (w : Write) → Step env s (written env w s)
  puts :
      (before : List Signal) (signal : Signal) (after : List Signal)
      → s.blocked ≡ before ++ signal ∷ after
      → length s.queue < signals_queue_maxsize
      → Step env s (put_done signal (before ++ after) s)
  gets :
      (signal : Signal) (rest : List Signal)
      → s.phase ≡ running
      → s.queue ≡ signal ∷ rest
      → Step env s (spawned signal rest s)
  ends :
      (before : List Signal) (signal : Signal) (after : List Signal)
      → s.active ≡ before ++ signal ∷ after
      → Step env s (discarded signal (before ++ after) s)
  cancels : s.phase ≡ running → Step env s (cancelled s)
  reraises : s.phase ≡ stopping → s.active ≡ [] → Step env s (reraised s)

pub data Reach (env : Env) (s : System) : System → Type 0 where
  here : Reach env s s
  next : {t u : System} → Reach env s t → Step env t u → Reach env s u

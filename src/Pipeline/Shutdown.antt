-- ===== src/Pipeline/Shutdown.antt =====
-- What is left after the scheduler is cancelled.
use telegram_olymptrade_sign.Prelude.{◌+◌, ◌≡◌, ◌≢◌, [], length}
use telegram_olymptrade_sign.Domain.Signal.{Signal}
use telegram_olymptrade_sign.Telegram.Listener.{Env}
use telegram_olymptrade_sign.Pipeline.{System, running, stopped, active_task_count, Reach}

-- No task is created, and the loop does not go on.
pub record IsOver (s t : System) : Type 0 where
  pub created : t.created ≡ s.created
  pub phase : t.phase ≢ running

-- An end in which no task is left and nothing else is lost.
abbrev pub Ends : Env → System → Type 0
Ends env s =
    (t : System) × Reach env s t
    × (t.phase ≡ stopped)
    × (active_task_count t ≡ 0)
    × (t.queue ≡ s.queue)
    × (t.blocked ≡ s.blocked)

-- Each task that was created is in `active` or has ended, and none is in `active` once `run` has ended.
pub record IsTracked (s : System) : Type 0 where
  pub counted : length s.created ≡ length s.active + length s.ended
  pub waited : s.phase ≡ stopped → s.active ≡ []

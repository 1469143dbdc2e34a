-- ===== src/Scheduler/World.antt =====
-- What the coroutines of scheduler/trigger.py act on: the tables, the broker, the clock and the
-- notifier, with the trace of what they did, and a monad for code that may raise.
use telegram_olymptrade_sign.Prelude.{ℕ, suc, ◌+◌, ◌-◌, Bool, String, List, ◌∷◌, leb, if◌then◌else◌}
use telegram_olymptrade_sign.Config.{Config, Time}
use telegram_olymptrade_sign.Domain.Gale.{Stage}
use telegram_olymptrade_sign.Domain.State.{Status}
use telegram_olymptrade_sign.Notify.{Note}
use telegram_olymptrade_sign.Broker.{Broker, BrokerError}
use telegram_olymptrade_sign.Store.Rows.{Date, Db}

pub data Exception : Type 0 where
  from_broker : BrokerError → Exception
  stage_already_exists : String → Exception
  foreign_key_violation : String → Exception
  from_notifier : Note → Exception
  value_error : Status → Exception

-- `unfinished` is what a loop comes to when its fuel runs out; the code has no such outcome.
pub data Outcome (A : Type 0) : Type 0 where
  returned : A → Outcome A
  raised : Exception → Outcome A
  unfinished : Outcome A

-- What a supervisor asked of the world, the timer and the broker in particular.
pub data Act : Type 0 where
  armed : Stage → Time → Act
  ordered : Stage → ℕ → Act
  waited : String → Time → Act
  notified : Note → Act

pub record World (B : Type 0) : Type 0 where
  pub db : Db
  pub broker : B
  pub ticks : ℕ
  pub trace : List Act

-- The parts of the process that are not the scheduler's: the settings, the broker, the readings of
-- the two clocks by the number of readings so far, which notifications raise, `sha1`, the date of a
-- moment in the configured time zone, and what other tasks do to the tables during a wait.
pub record Env : Type 1 where
  pub config : Config
  pub broker : Broker
  pub clock : ℕ → Time
  pub monotonic : ℕ → Time
  pub raises : Note → Bool
  pub sha1_hex : String → String
  pub date_of : Time → Date
  pub others : ℕ → Db → Db

abbrev pub Exec : Type 0 → Type 0 → Type 0
Exec B A = World B → Outcome A × World B

module _ {B A : Type 0} where
  abbrev pub pure : A → Exec B A
  pure a w = (returned a, w)

  abbrev pub raise : Exception → Exec B A
  raise e w = (raised e, w)

  abbrev pub gets : (World B → A) → Exec B A
  gets f w = (returned (f w), w)

module _ {B A C : Type 0} where
  abbrev pub continue : Outcome A → (A → Exec B C) → Exec B C
  continue (returned a) f w = f a w
  continue (raised e) f w = (raised e, w)
  continue unfinished f w = (unfinished, w)

  infixl 10 ◌>>=◌ ◌>>◌
  abbrev pub ◌>>=◌ : Exec B A → (A → Exec B C) → Exec B C
  ◌>>=◌ m f w = let (r, w') = m w in continue r f w'

  abbrev pub ◌>>◌ : Exec B A → Exec B C → Exec B C
  m >> k = m >>= λ _. k

-- A statement on the tables.
abbrev pub write : {B : Type 0} → (Db → Db) → Exec B Unit
write f w = (returned tt, record w { db = f w.db })

abbrev pub act : {B : Type 0} → Act → Exec B Unit
act a w = (returned tt, record w { trace = a ∷ w.trace })

-- `compute_target_monotonic`, from the two readings that it makes.
unfoldable pub target_monotonic : Time → Time → Time → Time
target_monotonic target_wall now_wall now_mono =
    if leb target_wall now_wall then now_mono else now_mono + (target_wall - now_wall)

module _ (env : Env) where
  abbrev pub now_unix : {B : Type 0} → Exec B Time
  now_unix w = (returned (env.clock w.ticks), record w { ticks = suc w.ticks })

  -- `_safe_notify`: an exception of the notifier is absorbed.
  abbrev pub safe_notify : {B : Type 0} → Note → Exec B Unit
  safe_notify n = act (notified n)

  -- A notification that is awaited directly.
  abbrev pub notify : {B : Type 0} → Note → Exec B Unit
  notify n w = (
    if env.raises n then raised (from_notifier n) else returned tt,
    record w { trace = notified n ∷ w.trace },
  )

  -- Other tasks run while this one waits.
  abbrev pub yield_to_others : {B : Type 0} → Exec B Unit
  yield_to_others w = (returned tt, record w { db = env.others w.ticks w.db })

-- ===== src/Broker.antt =====
-- broker/base.py: the interface that the scheduler trades through.
pub mod Retry
pub mod DryRun
pub mod Mt5
use telegram_olymptrade_sign.Prelude.{ℕ, Option, String}
use telegram_olymptrade_sign.Prelude.Int.{ℤ}
use telegram_olymptrade_sign.Config.{Time}
use telegram_olymptrade_sign.Domain.Gale.{Stage}
use telegram_olymptrade_sign.Domain.Signal.{Signal}
use telegram_olymptrade_sign.Domain.State.{StageResult}

-- `UnsupportedPairError` with its message, `BrokerAuthError`, and any other exception.
pub data BrokerError : Type 0 where
  unsupported_pair : String → BrokerError
  broker_auth : BrokerError
  other_error : BrokerError

pub data Placed : Type 0 where
  accepted : String → Placed
  rejected : BrokerError → Placed

-- What waiting for a trade under a timeout comes to: a result, `TimeoutError`, or another exception.
pub data Waited : Type 0 where
  reported : StageResult → Waited
  timed_out : Waited
  failed : BrokerError → Waited

-- The state of a broker and its methods. `start_of_day_balance` is `none` where the broker has no
-- such attribute or no value of it.
pub record Broker : Type 1 where
  pub St : Type 0
  pub place : Signal → Stage → ℕ → St → Placed × St
  pub wait_result : String → Time → St → Waited × St
  pub start_of_day_balance : St → Option ℤ

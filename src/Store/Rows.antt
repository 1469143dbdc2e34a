-- ===== src/Store/Rows.antt =====
-- infra/db_rows.py and migrations/001_initial.sql: the rows of the three tables.
use telegram_olymptrade_sign.Prelude.{ℕ, String, Option, List}
use telegram_olymptrade_sign.Prelude.Int.{ℤ}
use telegram_olymptrade_sign.Config.{Time}
use telegram_olymptrade_sign.Domain.Gale.{Stage}
use telegram_olymptrade_sign.Domain.Signal.{Direction}
use telegram_olymptrade_sign.Domain.State.{Status, ErrorReason, StageResult}

pub data StageDbResult : Type 0 where
  open_trade : StageDbResult
  closed : StageResult → StageDbResult

-- A day in the configured time zone, by its number.
abbrev pub Date : Type 0
Date = ℕ

pub data LimitType : Type 0 where
  loss count drawdown : LimitType

pub record SignalRow : Type 0 where
  pub signal_id : String
  pub pair : String
  pub broker_pair : Option String
  pub broker_category : Option String
  pub direction : Direction
  pub trigger_hhmm : String
  pub trigger_ts_unix : Time
  pub expiration_seconds : ℕ
  pub received_at_unix : Time
  pub source_message_id : ℕ
  pub source_chat_id : ℤ
  pub raw_text : String
  pub status : Status
  pub error_reason : Option ErrorReason
  pub created_at_unix : Time
  pub updated_at_unix : Time

pub record StageRow : Type 0 where
  pub trade_id : String
  pub signal_id : String
  pub stage : Stage
  pub pair : String
  pub direction : Direction
  pub amount : ℕ
  pub placed_at_unix : Time
  pub expires_at_unix : Time
  pub closed_at_unix : Option Time
  pub pnl : Option ℤ
  pub result : StageDbResult
  pub broker_trade_id : Option String

pub record DailySummaryRow : Type 0 where
  pub date : Date
  pub signals_count : ℕ
  pub trades_count : ℕ
  pub wins : ℕ
  pub losses : ℕ
  pub realized_pnl : ℤ
  pub limit_hit : Option LimitType

pub record Db : Type 0 where
  pub signals : List SignalRow
  pub stages : List StageRow
  pub daily_summary : List DailySummaryRow

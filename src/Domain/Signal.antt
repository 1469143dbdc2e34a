-- ===== src/Domain/Signal.antt =====
-- domain/signal.py: the signal that the listener builds and the scheduler runs.
pub mod Chars
pub mod Parser
pub mod Times
pub mod Sound
pub mod Message
pub mod Digits
pub mod Lines
mod Long
pub mod RoundTrip
use telegram_olymptrade_sign.Prelude.{ℕ, String}
use telegram_olymptrade_sign.Prelude.Int.{ℤ}
use telegram_olymptrade_sign.Config.{Time}

pub data Direction : Type 0 where
  up down : Direction

pub record Signal : Type 0 where
  pub signal_id : String
  pub pair : String
  pub direction : Direction
  pub trigger_hhmm : String
  pub expiration_seconds : ℕ
  pub received_at_unix : Time
  pub source_message_id : ℕ
  pub source_chat_id : ℤ
  pub raw_text : String
  pub trigger_unix_initial : Time
  pub trigger_unix_gale1 : Time
  pub trigger_unix_gale2 : Time

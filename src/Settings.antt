-- ===== src/Settings.antt =====
-- config.py: what is checked when the settings are loaded. A value has its type already; amounts are in cents. `zone`
-- is how `ZoneInfo` ends on a name, and `lower` is `str.lower`.
pub mod Demo
use telegram_olymptrade_sign.Prelude.{
  ℕ, zero, suc, Bool, true, false, ◌&&◌, ◌||◌, Option, none, some, String, str_eq, leb,
  if◌then◌else◌,
}
use telegram_olymptrade_sign.Prelude.Int.{ℤ, pos, negsuc}
use telegram_olymptrade_sign.Config.{Config}
use telegram_olymptrade_sign.Telegram.Channel.{contains}
use telegram_olymptrade_sign.App.{Credentials}

-- ZoneInfo gives a zone, raises a ZoneInfoNotFoundError or another ValueError, or raises something else.
pub data ZoneEnd : Type 0 where
  found not_found zone_raised : ZoneEnd

-- The values of the environment and the .env file, or the defaults. `timezone` is none where it is left to its
-- default, which is not validated.
pub record Settings : Type 0 where
  pub dry_run : Bool
  pub mt5_login : ℕ
  pub mt5_password : String
  pub mt5_server : String
  pub amount_initial : ℤ
  pub amount_gale1 : ℤ
  pub amount_gale2 : ℤ
  pub expiration_seconds : ℤ
  pub trigger_skew_tolerance_seconds : ℤ
  pub daily_loss_limit : ℤ
  pub daily_trade_limit : ℤ
  pub daily_drawdown_pct : ℤ
  pub timezone : Option String

pub data Loaded : Type 0 where
  loaded : Credentials → Config → Loaded
  validation_error : Loaded
  load_raised : Loaded

-- `gt=0`
unfoldable pub gt_zero : ℤ → Option ℕ
gt_zero (pos zero) = none
gt_zero (pos (suc n)) = some (suc n)
gt_zero (negsuc n) = none

-- `ge=0`
unfoldable pub ge_zero : ℤ → Option ℕ
ge_zero (pos n) = some n
ge_zero (negsuc n) = none

-- `ge=0, le=100`
unfoldable pub percentage : ℤ → Option ℕ
percentage (pos n) = if leb n 100 then some n else none
percentage (negsuc n) = none

infixl 10 ◌>>=◌
abbrev pub ◌>>=◌ : {A B : Type 0} → Option A → (A → Option B) → Option B
none >>= f = none
some a >>= f = f a

-- The fields that the trading code reads.
unfoldable pub checked_fields : Settings → Option Config
unfolding gt_zero ge_zero percentage
checked_fields s = do
  amount_initial ← gt_zero s.amount_initial
  amount_gale1 ← gt_zero s.amount_gale1
  amount_gale2 ← gt_zero s.amount_gale2
  expiration_seconds ← gt_zero s.expiration_seconds
  tolerance ← ge_zero s.trigger_skew_tolerance_seconds
  daily_loss_limit ← ge_zero s.daily_loss_limit
  daily_trade_limit ← ge_zero s.daily_trade_limit
  daily_drawdown_pct ← percentage s.daily_drawdown_pct
  some (record {
    amount_initial = amount_initial;
    amount_gale1 = amount_gale1;
    amount_gale2 = amount_gale2;
    expiration_seconds = expiration_seconds;
    trigger_skew_tolerance_seconds = tolerance;
    daily_loss_limit = daily_loss_limit;
    daily_trade_limit = daily_trade_limit;
    daily_drawdown_pct = daily_drawdown_pct;
  })

-- `_validate_demo_server`
unfoldable pub validate_demo_server : (String → String) → String → Bool
unfolding contains
validate_demo_server lower v = str_eq v "" || contains "demo" (lower v)

-- `_validate_timezone`
unfoldable pub validate_timezone : (String → ZoneEnd) → Option String → ZoneEnd
validate_timezone zone none = found
validate_timezone zone (some v) = zone v

abbrev pub credentials : Settings → Credentials
credentials s = record {
  dry_run = s.dry_run;
  mt5_login = s.mt5_login;
  mt5_password = s.mt5_password;
  mt5_server = s.mt5_server;
}

abbrev pub loaded_if : Bool → Credentials → Option Config → Loaded
loaded_if true c (some config) = loaded c config
loaded_if true c none = validation_error
loaded_if false c o = validation_error

abbrev pub in_zone : ZoneEnd → Loaded → Loaded
in_zone found l = l
in_zone not_found l = validation_error
in_zone zone_raised l = load_raised

-- `Config()`: what a validator raises that is no ValueError is passed on, and every other refusal is collected.
unfoldable pub load : (String → ZoneEnd) → (String → String) → Settings → Loaded
unfolding checked_fields validate_demo_server validate_timezone
load zone lower s =
    in_zone (validate_timezone zone s.timezone)
      (loaded_if (validate_demo_server lower s.mt5_server) (credentials s) (checked_fields s))

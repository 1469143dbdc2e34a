-- ===== src/Settings/Demo.antt =====
-- What loaded settings are, and the broker that they open.
use mathlib.Core.Path.{subst}
use telegram_olymptrade_sign.Prelude.{
  ℕ, zero, suc, ◌≡◌, ◌≢◌, ◌≤◌, ◌<◌, refl, Bool, true, false, Option, none, some, String, arith, sym,
  ◌∙◌, inl, inr, Bool-cases, str_eq, eq_iff,
}
use telegram_olymptrade_sign.Prelude.Int.{ℤ, pos, negsuc}
use telegram_olymptrade_sign.Config.{Config}
use telegram_olymptrade_sign.Telegram.Channel.{contains}
use telegram_olymptrade_sign.App.{Credentials, Calls, lacks_credentials, body}
use telegram_olymptrade_sign.Settings.{
  ◌>>=◌, ZoneEnd, found, not_found, zone_raised, in_zone, Settings, Loaded, loaded, gt_zero,
  ge_zero, percentage, checked_fields, validate_demo_server, validate_timezone, credentials,
  loaded_if, load,
}

-- The bounds of the settings.
pub record IsBounded (config : Config) : Type 0 where
  pub initial : 0 < config.amount_initial
  pub gale1 : 0 < config.amount_gale1
  pub gale2 : 0 < config.amount_gale2
  pub expires : 0 < config.expiration_seconds
  pub drawdown : config.daily_drawdown_pct ≤ 100

gt_zero_bound : (z : ℤ) (n : ℕ) → gt_zero z ≡ some n → 0 < n
unfolding gt_zero
gt_zero_bound (pos zero) n h = cc
gt_zero_bound (pos (suc m)) n h = ground (arith, h)
gt_zero_bound (negsuc m) n h = cc

percentage_bound : (z : ℤ) (n : ℕ) → percentage z ≡ some n → n ≤ 100
unfolding percentage
percentage_bound (pos m) n h = ground (arith, h)
percentage_bound (negsuc m) n h = cc

unbind :
    {A B : Type 0} (o : Option A) (f : A → Option B) (b : B)
    → o >>= f ≡ some b
    → (a : A) × (o ≡ some a) × (f a ≡ some b)
unbind none f b h = cc
unbind (some a) f b h = (a, refl, h)

same_config : (a b : Config) → some a ≡ some b → a ≡ b
same_config a b h = cc

checked_fields-IsBounded :
    (s : Settings) (config : Config) → checked_fields s ≡ some config → IsBounded config
unfolding checked_fields
checked_fields-IsBounded s config h =
    let (initial, e1, h1) = unbind (gt_zero s.amount_initial) _ config h in
    let (gale1, e2, h2) = unbind (gt_zero s.amount_gale1) _ config h1 in
    let (gale2, e3, h3) = unbind (gt_zero s.amount_gale2) _ config h2 in
    let (expires, e4, h4) = unbind (gt_zero s.expiration_seconds) _ config h3 in
    let (tolerance, e5, h5) = unbind (ge_zero s.trigger_skew_tolerance_seconds) _ config h4 in
    let (loss, e6, h6) = unbind (ge_zero s.daily_loss_limit) _ config h5 in
    let (trades, e7, h7) = unbind (ge_zero s.daily_trade_limit) _ config h6 in
    let (pct, e8, h8) = unbind (percentage s.daily_drawdown_pct) _ config h7 in
    subst IsBounded (same_config _ config h8) (record {
      initial = gt_zero_bound s.amount_initial initial e1;
      gale1 = gt_zero_bound s.amount_gale1 gale1 e2;
      gale2 = gt_zero_bound s.amount_gale2 gale2 e3;
      expires = gt_zero_bound s.expiration_seconds expires e4;
      drawdown = percentage_bound s.daily_drawdown_pct pct e8;
    })

loaded_if-loaded :
    (b : Bool) (c c' : Credentials) (o : Option Config) (config : Config)
    → loaded_if b c o ≡ loaded c' config
    → (b ≡ true) × (c ≡ c') × (o ≡ some config)
loaded_if-loaded true c c' (some x) config h = (refl, cc, cc)
loaded_if-loaded true c c' none config h = cc
loaded_if-loaded false c c' o config h = cc

in_zone-loaded :
    (e : ZoneEnd) (l : Loaded) (c : Credentials) (config : Config)
    → in_zone e l ≡ loaded c config
    → (e ≡ found) × (l ≡ loaded c config)
in_zone-loaded found l c config h = (refl, h)
in_zone-loaded not_found l c config h = cc
in_zone-loaded zone_raised l c config h = cc

load-loaded :
    (zone : String → ZoneEnd) (lower : String → String) (s : Settings) (c : Credentials)
    (config : Config)
    → load zone lower s ≡ loaded c config
    → (validate_timezone zone s.timezone ≡ found)
      × (validate_demo_server lower s.mt5_server ≡ true)
      × (credentials s ≡ c)
      × (checked_fields s ≡ some config)
unfolding load
load-loaded zone lower s c config h =
    let (z, l) = in_zone-loaded (validate_timezone zone s.timezone) _ c config h in
    let (demo, same, fields) =
      loaded_if-loaded (validate_demo_server lower s.mt5_server) (credentials s) c
        (checked_fields s) config l in
    (z, demo, same, fields)

false≢true : false ≢ true
false≢true e = cc

opened_broker :
    (c : Credentials) (k : Calls) → (body c k).1.broker ≡ true → lacks_credentials c ≡ false
unfolding body
opened_broker c k h = elim (Bool-cases (lacks_credentials c)) [
  | inl lacks ↦ absurd (false≢true (sym (rw (body, lacks) refl) ∙ h))
  | inr held ↦ held
]

-- The settings of a program that does not lack the credentials.
held_credentials :
    (c : Credentials)
    → lacks_credentials c ≡ false
    → c.dry_run ≡ false
    → (c.mt5_login ≢ 0) × (c.mt5_password ≢ "") × (str_eq c.mt5_server "" ≡ false)
unfolding lacks_credentials
held_credentials c h live = ground (arith, h, live, eq_iff c.mt5_password "")

-- Whatever else happens, a program whose settings were loaded and that opens the broker of MetaTrader 5
-- does so with a login and a password, on a server whose name contains "demo" in any case, and with stakes and an expiration
-- above zero.
pub live_broker_is_demo :
    (zone : String → ZoneEnd) (lower : String → String) (s : Settings) (c : Credentials)
    (config : Config) (k : Calls)
    → load zone lower s ≡ loaded c config
    → c.dry_run ≡ false
    → (body c k).1.broker ≡ true
    → (contains "demo" (lower c.mt5_server) ≡ true)
      × (c.mt5_login ≢ 0)
      × (c.mt5_password ≢ "")
      × IsBounded config
unfolding lacks_credentials validate_demo_server
live_broker_is_demo zone lower s c config k h live shown =
    let (z, demo, same, fields) = load-loaded zone lower s c config h in
    let (login, password, named) = held_credentials c (opened_broker c k shown) live in
    let demo' : validate_demo_server lower c.mt5_server ≡ true =
      subst (λ x. validate_demo_server lower x.mt5_server ≡ true) same demo in
    (ground (arith, demo', named), login, password, checked_fields-IsBounded s config fields)

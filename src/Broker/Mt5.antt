-- ===== src/Broker/Mt5.antt =====
-- broker/mt5.py: the broker that trades through a MetaTrader 5 terminal. What the `MetaTrader5` object does
-- is the record `Terminal`; making one is taken to succeed, and so are its calls, but for `initialize`.
pub mod Trading
pub mod Flat
pub mod Placing
use Prim.Native.Char.{code}
use Prim.Native.String.{String, ◌++◌ as str_append}
use telegram_olymptrade_sign.Prelude.{
  ℕ, Bool, true, false, Option, none, some, List, [], ◌∷◌, str_eq, if◌then◌else◌, ◌==◌,
}
use telegram_olymptrade_sign.Prelude.Int.{ℤ}
use telegram_olymptrade_sign.Config.{Time}
use telegram_olymptrade_sign.Domain.Gale.{Stage, initial, gale1, gale2}
use telegram_olymptrade_sign.Domain.Signal.Chars.{is_char}
use telegram_olymptrade_sign.Broker.Retry.{
  Attempt, succeeded, broker_auth_error, Retrying, RetryOutcome, completed, with_retry,
}

-- `ORDER_TYPE_BUY` and `ORDER_TYPE_SELL`.
pub data OrderType : Type 0 where
  buy sell : OrderType

-- The request of `order_send`, with the volume in hundredths of a lot, and with the ticket of the
-- position that it closes if it closes one.
pub record Order : Type 0 where
  pub symbol : String
  pub volume : ℕ
  pub type : OrderType
  pub position : Option String
  pub comment : String

-- The answer of `order_send`; no order is the number 0.
pub record SendResult : Type 0 where
  pub retcode : ℕ
  pub comment : String
  pub order : ℕ

pub record Position : Type 0 where
  pub profit : ℤ
  pub type : ℕ
  pub symbol : String
  pub volume : ℕ

-- The terminal with its state: `initialize` by the way it ends, where a false result is not success;
-- the balance of the account, none without an account or a balance; whether a symbol has information;
-- the names that a search gives; the answer to an order; the first position with a ticket, which is given as the text of its number; the text of
-- an `int`; and how many polls of a position end within a timeout.
pub record Terminal : Type 1 where
  pub St : Type 0
  pub initialize : St → Option Attempt × St
  pub account_balance : St → Option ℤ
  pub has_symbol : String → St → Bool
  pub symbols_get : String → St → List (Option String)
  pub order_send : Order → St → Option SendResult × St
  pub positions_get : String → St → Option Position × St
  pub text_of_int : ℕ → String
  pub polls_within : Time → St → ℕ

-- The fields of `Mt5Broker` that change; `connected` is that `_mt5` is there.
pub record Mt5 (S : Type 0) : Type 0 where
  pub connected : Bool
  pub symbol_cache : List (String × String)
  pub last_known_profit : List (String × ℤ)
  pub start_of_day_balance : Option ℤ
  pub terminal : S

-- `LOTS_BY_STAGE`, in hundredths of a lot.
unfoldable pub lots_by_stage : Stage → ℕ
lots_by_stage initial = 1
lots_by_stage gale1 = 2
lots_by_stage gale2 = 4

abbrev pub symbol_suffix : String
symbol_suffix = "-STD"

abbrev pub known_input_pairs : List String
known_input_pairs =
    "EUR/JPY" ∷ "EUR/USD" ∷ "EUR/GBP" ∷ "GBP/USD" ∷ "GBP/JPY" ∷ "USD/JPY" ∷ "USD/CHF" ∷ "USD/CAD"
    ∷ "AUD/USD" ∷ "NZD/USD" ∷ []

-- `input_pair.replace("/", "")`
unfoldable pub without_slash : String → String
without_slash String.[] = String.[]
without_slash (String.◌∷◌ c s) =
    let rest = without_slash s in if is_char b'/' c then rest else String.◌∷◌ c rest

-- Whether a search result has a name, and which.
unfoldable pub is_named : String → Option String → Bool
is_named target none = false
is_named target (some name) = str_eq name target

unfoldable pub any_named : String → List (Option String) → Bool
unfolding is_named
any_named target [] = false
any_named target (m ∷ ms) = if is_named target m then true else any_named target ms

unfoldable pub choose_match : String → List (Option String) → Option String
unfolding any_named
choose_match target [] = none
choose_match target (m ∷ ms) = if any_named target (m ∷ ms) then some target else m

-- `_resolve_symbol_name`, for what the terminal knows of names.
unfoldable pub resolve_symbol_name :
    String → (String → Bool) → (String → List (Option String)) → Option String
unfolding choose_match without_slash
resolve_symbol_name input_pair has_symbol symbols_get =
    let base = without_slash input_pair in
    let target = str_append base symbol_suffix in
    if has_symbol target
    then some target
    else choose_match target (symbols_get (str_append "*" (str_append base "*")))

-- `d.get(key)` on a dictionary whose last assignment stands first.
unfoldable pub lookup : {A : Type 0} → String → List (String × A) → Option A
lookup key [] = none
lookup key ((k, a) ∷ rest) = if str_eq k key then some a else lookup key rest

module _ (T : Terminal) where
  unfoldable pub resolve_in : String → Mt5 T.St → Option String
  unfolding resolve_symbol_name
  resolve_in pair b =
      resolve_symbol_name pair (λ n. T.has_symbol n b.terminal) (λ n. T.symbols_get n b.terminal)

  -- `_sync_initialize`
  unfoldable pub sync_initialize : Mt5 T.St → Attempt × Mt5 T.St
  sync_initialize b =
      let (ended, t) = T.initialize b.terminal in
      (elim ended [ some a ↦ a | none ↦ broker_auth_error ], record b { terminal = t })

  unfoldable pub cache_start_of_day_balance : Mt5 T.St → Mt5 T.St
  cache_start_of_day_balance b = elim (T.account_balance b.terminal) [
    | none ↦ b
    | some balance ↦ record b { start_of_day_balance = some balance }
  ]

  unfoldable pub load_symbols : List String → Mt5 T.St → Mt5 T.St
  unfolding resolve_in
  load_symbols [] b = b
  load_symbols (pair ∷ pairs) b = elim (resolve_in pair b) [
    | none ↦ load_symbols pairs b
    | some symbol ↦ load_symbols pairs (record b { symbol_cache = (pair, symbol) ∷ b.symbol_cache })
  ]

  unfoldable pub load_symbol_cache : Mt5 T.St → Mt5 T.St
  unfolding load_symbols
  load_symbol_cache b = load_symbols known_input_pairs b

  unfoldable pub after_initialize : RetryOutcome → Mt5 T.St → RetryOutcome × Mt5 T.St
  unfolding cache_start_of_day_balance load_symbol_cache
  after_initialize completed b = (completed, load_symbol_cache (cache_start_of_day_balance b))
  after_initialize ended b = (ended, b)

  -- `connect`, from the hooks, the clock and the sleep of `with_retry`, whose operation it sets. The
  -- notification on_broker_reconnected at its end has no effect on the broker.
  unfoldable pub connect : Retrying (Mt5 T.St) → Mt5 T.St → RetryOutcome × Mt5 T.St
  unfolding sync_initialize after_initialize
  connect r b =
      let log = with_retry (record r { op = sync_initialize }) 5 (record b { connected = true }) in
      after_initialize log.outcome log.state

  -- `close`, whether or not `shutdown` raises.
  unfoldable pub close : Mt5 T.St → Mt5 T.St
  close b = record b { connected = false }

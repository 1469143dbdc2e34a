-- ===== src/Broker/DryRun.antt =====
-- broker/dry_run.py: the broker that places nothing and answers every trade at once.
use Prim.Native.String.{◌++◌ as str_append}
use telegram_olymptrade_sign.Prelude.{
  ℕ, suc, ◌≡◌, ◌≢◌, refl, Option, none, some, String, List, [], ◌∷◌, arith, str_eq, eq_refl, eq_iff,
  ap, ◌∙◌, if◌then◌else◌,
}
use telegram_olymptrade_sign.Config.{Time}
use telegram_olymptrade_sign.Domain.Gale.{Stage}
use telegram_olymptrade_sign.Domain.Signal.{Signal}
use telegram_olymptrade_sign.Domain.State.{StageResult, win}
use telegram_olymptrade_sign.Store.Statements.{stage_name}
use telegram_olymptrade_sign.Broker.{Broker, Placed, accepted, Waited, reported}

-- An entry of `_placed`.
pub record Trade : Type 0 where
  pub trade_id : String
  pub signal : Signal
  pub stage : Stage

-- `_placed`, and how many ids `uuid4` has given.
pub record DryRun : Type 0 where
  pub placed : List Trade
  pub uuids : ℕ

unfoldable pub remove_trade : String → List Trade → List Trade
remove_trade id [] = []
remove_trade id (t ∷ ts) =
    let rest = remove_trade id ts in if str_eq t.trade_id id then rest else t ∷ rest

unfoldable pub find_trade : String → List Trade → Option Trade
find_trade id [] = none
find_trade id (t ∷ ts) = if str_eq t.trade_id id then some t else find_trade id ts

find_trade-remove_trade :
    (id j : String) (ts : List Trade)
    → find_trade j (remove_trade id ts) ≡ (if str_eq id j then none else find_trade j ts)
unfolding find_trade remove_trade
find_trade-remove_trade id j [] = ground arith
find_trade-remove_trade id j (t ∷ ts) =
    ground (
      arith,
      find_trade-remove_trade id j ts,
      eq_iff t.trade_id id,
      eq_iff t.trade_id j,
      eq_iff id j,
    )

find_trade-removed : (id : String) (ts : List Trade) → find_trade id (remove_trade id ts) ≡ none
find_trade-removed id ts = ground (arith, eq_refl id, find_trade-remove_trade id id ts)

find_trade-kept :
    (id j : String) (ts : List Trade) → id ≢ j → find_trade j (remove_trade id ts) ≡ find_trade j ts
find_trade-kept id j ts other = ground (arith, eq_iff id j, find_trade-remove_trade id j ts)

find_trade-first : (t : Trade) (ts : List Trade) → find_trade t.trade_id (t ∷ ts) ≡ some t
unfolding find_trade
find_trade-first t ts = ground (arith, eq_refl t.trade_id)

find_trade-replaced :
    (t : Trade) (j : String) (ts : List Trade)
    → t.trade_id ≢ j
    → find_trade j (t ∷ remove_trade t.trade_id ts) ≡ find_trade j ts
unfolding find_trade
find_trade-replaced t j ts other =
    ground (arith, eq_iff t.trade_id j, find_trade-kept t.trade_id j ts other)

-- `_default_outcome`
abbrev default_outcome : Signal → Stage → Waited
default_outcome signal stage = reported win

-- `uuid4().hex[:8]` by the number of calls so far, and the outcome provider, which may raise.
module _ (uuid8 : ℕ → String) (outcome_provider : Signal → Stage → Waited) where
  unfoldable pub trade_id_for : Signal → Stage → ℕ → String
  unfolding stage_name
  trade_id_for signal stage n = str_append "dryrun-" (
      str_append signal.signal_id
        (str_append "-" (str_append (stage_name stage) (str_append "-" (uuid8 n)))))

  unfoldable pub dry_place : Signal → Stage → ℕ → DryRun → Placed × DryRun
  unfolding remove_trade
  dry_place signal stage amount b =
      let id = trade_id_for signal stage b.uuids in
      let trade : Trade = record { trade_id = id; signal = signal; stage = stage } in
      (accepted id, record { placed = trade ∷ remove_trade id b.placed; uuids = suc b.uuids })

  unfoldable pub dry_answer : Option Trade → Waited
  dry_answer none = reported StageResult.error
  dry_answer (some t) = outcome_provider t.signal t.stage

  unfoldable pub dry_wait : String → Time → DryRun → Waited × DryRun
  unfolding dry_answer find_trade remove_trade
  dry_wait id timeout b =
      (dry_answer (find_trade id b.placed), record b { placed = remove_trade id b.placed })

  -- The broker as the scheduler uses it; it has no balance of the day.
  unfoldable pub dry_run_broker : Broker
  unfolding dry_place dry_wait
  dry_run_broker = record {
    St = DryRun;
    place = dry_place;
    wait_result = dry_wait;
    start_of_day_balance = λ b. none;
  }

  -- A placed trade is accepted under its id; the first wait for that id gives the outcome that the
  -- provider has for its signal and stage, a second one an error. Neither the placing nor the wait
  -- touches a trade with another id.
  pub dry_wait-dry_place :
      (signal : Signal) (stage : Stage) (amount : ℕ) (limit : Time) (j : String) (b : DryRun)
      → let id = trade_id_for signal stage b.uuids in
        let (answer, b1) = dry_place signal stage amount b in
        let (first, b2) = dry_wait id limit b1 in
        (answer ≡ accepted id)
        × (first ≡ outcome_provider signal stage)
        × ((dry_wait id limit b2).0 ≡ reported StageResult.error)
        × (id ≢ j → find_trade j b1.placed ≡ find_trade j b.placed)
        × (id ≢ j → find_trade j b2.placed ≡ find_trade j b.placed)
  unfolding dry_place dry_wait
  dry_wait-dry_place signal stage amount limit j b =
      let id = trade_id_for signal stage b.uuids in
      let trade : Trade = record { trade_id = id; signal = signal; stage = stage } in
      let ts = trade ∷ remove_trade id b.placed in
      (
        refl,
        ap dry_answer (find_trade-first trade (remove_trade id b.placed)),
        ap dry_answer (find_trade-removed id ts),
        λ other. find_trade-replaced trade j b.placed other,
        λ other. find_trade-kept id j ts other ∙ find_trade-replaced trade j b.placed other,
      )

-- ===== src/Store/Summaries.antt =====
-- The `daily_summary` table of infra/state_store.py: an update adds its deltas to the day.
use telegram_olymptrade_sign.Prelude.{◌+◌, ◌≡◌, ◌≢◌, refl, Option, none, some, arith}
use telegram_olymptrade_sign.Prelude.Int.{ℤ, ◌+ℤ◌, int_laws}
use telegram_olymptrade_sign.Prelude.Eq.{nat_eq}
use telegram_olymptrade_sign.Prelude.Table.{select-update_where, select-cons}
use telegram_olymptrade_sign.Store.Rows.{DailySummaryRow, Date, Db}
use telegram_olymptrade_sign.Store.Statements.{
  date_key, coalesce, Deltas, add_deltas, first_row, get_daily_summary, update_daily_summary,
}

-- What a day holds after an update.
abbrev pub added : Date → Deltas → Option DailySummaryRow → DailySummaryRow
added day d none = first_row day d
added day d (some row) = add_deltas d row

pub keeps_date : (d : Deltas) (r : DailySummaryRow) → (add_deltas d r).date ≡ r.date
unfolding add_deltas
keeps_date d r = refl

-- An update adds its deltas to the row of its day, which it makes when there is none, and leaves every
-- other day as it was.
pub get_daily_summary-update :
    (day other : Date) (d : Deltas) (db : Db)
    → (get_daily_summary day (update_daily_summary day d db)
        ≡ some (added day d (get_daily_summary day db)))
      × (day ≢ other
          → get_daily_summary other (update_daily_summary day d db) ≡ get_daily_summary other db)
unfolding update_daily_summary
get_daily_summary-update day other d db = ground (
  arith,
  select-cons date_key day (first_row day d) db.daily_summary,
  select-cons date_key other (first_row day d) db.daily_summary,
  select-update_where date_key day day (add_deltas d) db.daily_summary (keeps_date d),
  select-update_where date_key day other (add_deltas d) db.daily_summary (keeps_date d),
)

-- Both deltas at once; a limit that the second names replaces that of the first.
abbrev sum_deltas : Deltas → Deltas → Deltas
sum_deltas a b = record {
  signals_count = a.signals_count + b.signals_count;
  trades_count = a.trades_count + b.trades_count;
  wins = a.wins + b.wins;
  losses = a.losses + b.losses;
  realized_pnl = a.realized_pnl +ℤ b.realized_pnl;
  limit_hit = coalesce b.limit_hit a.limit_hit;
}

+ℤ_assoc : (a b c : ℤ) → a +ℤ b +ℤ c ≡ a +ℤ (b +ℤ c)
+ℤ_assoc a b c = omega int_laws

added_twice :
    (day : Date) (a b : Deltas) (o : Option DailySummaryRow)
    → added day b (some (added day a o)) ≡ added day (sum_deltas a b) o
unfolding add_deltas
added_twice day a b none = refl
added_twice day a b (some row) =
    ground (arith, +ℤ_assoc row.realized_pnl a.realized_pnl b.realized_pnl)

-- Two updates of a day are one update with the sums of their deltas: no delta is lost, and the counts
-- and the profit of a day do not depend on how its results are split over the calls.
update_daily_summary_twice :
    (day : Date) (a b : Deltas) (db : Db)
    → get_daily_summary day (update_daily_summary day b (update_daily_summary day a db))
      ≡ get_daily_summary day (update_daily_summary day (sum_deltas a b) db)
update_daily_summary_twice day a b db = cc (
  (get_daily_summary-update day day b (update_daily_summary day a db)).0,
  (get_daily_summary-update day day a db).0,
  (get_daily_summary-update day day (sum_deltas a b) db).0,
  added_twice day a b (get_daily_summary day db),
)

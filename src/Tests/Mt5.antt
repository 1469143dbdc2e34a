-- ===== src/Tests/Mt5.antt =====
-- The theorems on broker/mt5.py at a terminal that fills every order and closes it at once.
use telegram_olymptrade_sign.Prelude.{ℕ, suc, ◌≢◌, refl, inr, true, none, some, []}
use telegram_olymptrade_sign.Prelude.Int.{pos}
use telegram_olymptrade_sign.Domain.Gale.{initial}
use telegram_olymptrade_sign.Domain.State.{pending, done_win, from_signal}
use telegram_olymptrade_sign.Store.Statements.{get_signal}
use telegram_olymptrade_sign.Broker.Mt5.{Terminal, Mt5}
use telegram_olymptrade_sign.Broker.Retry.{succeeded}
use telegram_olymptrade_sign.Broker.Mt5.Trading.{place}
use telegram_olymptrade_sign.Broker.Mt5.Placing.{IsExecuted, place-IsExecuted}
use telegram_olymptrade_sign.Scheduler.World.{World}
use telegram_olymptrade_sign.Scheduler.Triple.{Post}
use telegram_olymptrade_sign.Scheduler.Landing.{IsLanded, Stranded}
use telegram_olymptrade_sign.Scheduler.Supervisor.{drive_cascade}
use telegram_olymptrade_sign.Scheduler.Unwon.{with_mt5, mt5_cascade_never_wins}
use telegram_olymptrade_sign.Tests.{sample_signal, sample_config, sample_env, db_with}

-- Its state counts its orders.
abbrev sample_terminal : Terminal
sample_terminal = record {
  St = ℕ;
  initialize = λ n. (some succeeded, n);
  account_balance = λ n. some (pos 1_000);
  has_symbol = λ name n. true;
  symbols_get = λ name n. [];
  order_send =
      λ order n. (some (record { retcode = 10_009; comment = "done"; order = suc n }), suc n);
  positions_get = λ ticket n. (none, n);
  text_of_int = λ n. "1";
  polls_within = λ limit n. 4;
}

abbrev sample_mt5 : Mt5 ℕ
sample_mt5 = record {
  connected = true;
  symbol_cache = [];
  last_known_profit = [];
  start_of_day_balance = none;
  terminal = 0;
}

place-IsExecuted_example :
    IsExecuted sample_terminal sample_signal initial sample_mt5
      (place sample_terminal sample_signal initial 200 sample_mt5)
place-IsExecuted_example = place-IsExecuted sample_terminal sample_signal initial 200 sample_mt5

abbrev mt5_world : World (Mt5 ℕ)
mt5_world = record { db = db_with pending; broker = sample_mt5; ticks = 0; trace = [] }

mt5_cascade_never_wins_example :
    Post
      (λ s w.
        IsLanded (with_mt5 sample_env sample_terminal) sample_signal s w × (s.state ≢ done_win))
      (Stranded (with_mt5 sample_env sample_terminal) sample_signal)
      (drive_cascade
        (with_mt5 sample_env sample_terminal)
        sample_signal
        4
        (from_signal sample_signal sample_config)
        mt5_world)
unfolding get_signal
mt5_cascade_never_wins_example =
    mt5_cascade_never_wins sample_env sample_terminal sample_signal mt5_world tt (λ k db. refl)
      (inr refl) refl

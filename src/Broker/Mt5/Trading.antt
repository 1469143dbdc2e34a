-- ===== src/Broker/Mt5/Trading.antt =====
-- broker/mt5.py: `place`, `wait_result` and `close_position`.
use Prim.Native.String.{String, ◌++◌ as str_append}
use telegram_olymptrade_sign.Prelude.{
  ℕ, zero, suc, ◌||◌, not, Option, none, some, ◌∷◌, if◌then◌else◌, ◌==◌,
}
use telegram_olymptrade_sign.Prelude.Int.{ℤ, pos, ltb_ℤ}
use telegram_olymptrade_sign.Config.{Time}
use telegram_olymptrade_sign.Domain.Gale.{Stage}
use telegram_olymptrade_sign.Domain.Signal.{Signal, Direction, up, down}
use telegram_olymptrade_sign.Domain.State.{StageResult, win, loss, tie, timeout}
use telegram_olymptrade_sign.Store.Statements.{stage_name}
use telegram_olymptrade_sign.Broker.{
  Broker, BrokerError, unsupported_pair, broker_auth, Placed, accepted, rejected, Waited, reported,
  failed,
}
use telegram_olymptrade_sign.Broker.Mt5.{
  OrderType, buy, sell, Order, SendResult, Position, Terminal, Mt5, lots_by_stage, symbol_suffix,
  without_slash, lookup, resolve_in,
}

abbrev pub res_s_ok : ℕ
res_s_ok = 10_009

abbrev pub res_e_no_money : ℕ
res_e_no_money = 10_018

abbrev pub res_e_reject : ℕ
res_e_reject = 10_006

abbrev pub res_e_price_changed : ℕ
res_e_price_changed = 10_019

abbrev pub order_type : Direction → OrderType
order_type up = buy
order_type down = sell

abbrev pub opposite_type : ℕ → OrderType
opposite_type position_type = if position_type == 0 then sell else buy

module _ (T : Terminal) where
  -- The symbol from the cache, or else from the terminal.
  unfoldable pub broker_symbol : String → Mt5 T.St → Option String
  unfolding lookup resolve_in
  broker_symbol pair b = elim (lookup pair b.symbol_cache) [
    | some symbol ↦ some symbol
    | none ↦ resolve_in T pair b
  ]

  unfoldable pub order_of : Signal → Stage → String → Order
  unfolding lots_by_stage stage_name
  order_of signal stage symbol = record {
    symbol = symbol;
    volume = lots_by_stage stage;
    type = order_type signal.direction;
    position = none;
    comment =
        str_append "signal-copier:"
          (str_append signal.signal_id (str_append ":" (stage_name stage)));
  }

  -- The exception for a return code other than RES_S_OK.
  unfoldable pub error_of_result : SendResult → BrokerError
  error_of_result r =
      if r.retcode == res_e_no_money || r.retcode == res_e_price_changed
      then broker_auth
      else if r.retcode == res_e_reject
      then unsupported_pair (
          str_append "MT5 rejected order: retcode="
            (str_append (T.text_of_int r.retcode) (str_append " comment=" r.comment)))
      else broker_auth

  -- What `place` does with the answer to its order.
  unfoldable pub after_send : Option SendResult → Mt5 T.St → Placed × Mt5 T.St
  unfolding error_of_result
  after_send none b = (rejected broker_auth, b)
  after_send (some r) b =
      if not (r.retcode == res_s_ok)
      then (rejected (error_of_result r), b)
      else if r.order == 0
      then (rejected broker_auth, b)
      else (let ticket = T.text_of_int r.order in
          (accepted ticket, record b { last_known_profit = (ticket, pos 0) ∷ b.last_known_profit }))

  unfoldable pub send_order : Signal → Stage → Option String → Mt5 T.St → Placed × Mt5 T.St
  unfolding order_of after_send without_slash
  send_order signal stage none b = (
    rejected (
        unsupported_pair (
          str_append "MT5 symbol not found for " (
            str_append signal.pair (
              str_append " (tried "
                (str_append (without_slash signal.pair) (str_append symbol_suffix ")")))))),
    b,
  )
  send_order signal stage (some symbol) b =
      let (answer, t) = T.order_send (order_of signal stage symbol) b.terminal in
      after_send answer (record b { terminal = t })

  -- `place`; the amount is not looked at.
  unfoldable pub place : Signal → Stage → ℕ → Mt5 T.St → Placed × Mt5 T.St
  unfolding broker_symbol send_order
  place signal stage amount b =
      if b.connected
      then send_order signal stage (broker_symbol signal.pair b) b
      else (rejected broker_auth, b)

  -- What a closed position comes to.
  unfoldable pub result_of_profit : Option ℤ → StageResult
  result_of_profit none = tie
  result_of_profit (some profit) =
      if ltb_ℤ (pos 0) profit then win else if ltb_ℤ profit (pos 0) then loss else tie

  -- `_poll_for_close`, on the number of polls that end within the timeout.
  unfoldable pub poll_for_close : ℕ → String → Mt5 T.St → Waited × Mt5 T.St
  unfolding lookup result_of_profit
  poll_for_close zero trade_id b = (reported timeout, b)
  poll_for_close (suc polls) trade_id b =
      let (position, t) = T.positions_get trade_id b.terminal in
      let rest = poll_for_close polls trade_id (record b { terminal = t }) in
      elim position [
        | some _ ↦ rest
        | none ↦ (
          reported (result_of_profit (lookup trade_id b.last_known_profit)),
          record b { terminal = t },
        )
      ]

  unfoldable pub wait_result : String → Time → Mt5 T.St → Waited × Mt5 T.St
  unfolding poll_for_close
  wait_result trade_id limit b =
      if b.connected
      then poll_for_close (T.polls_within limit b.terminal) trade_id b
      else (failed broker_auth, b)

  unfoldable pub closing_order : String → Position → Order
  closing_order trade_id p = record {
    symbol = p.symbol;
    volume = p.volume;
    type = opposite_type p.type;
    position = some trade_id;
    comment = "signal-copier:close";
  }

  -- `_close`, once the position has been looked up; the answer to the order is only logged.
  unfoldable pub close_found : String → Option Position → Mt5 T.St → ℤ × Mt5 T.St
  unfolding closing_order
  close_found trade_id none b = (pos 0, b)
  close_found trade_id (some p) b =
      let (answer, t) = T.order_send (closing_order trade_id p) b.terminal in
      (
        p.profit,
        record b { terminal = t; last_known_profit = (trade_id, p.profit) ∷ b.last_known_profit },
      )

  -- `close_position` where it ends within its timeout; `none` is its BrokerAuthError.
  unfoldable pub close_position : String → Mt5 T.St → Option ℤ × Mt5 T.St
  unfolding close_found
  close_position trade_id b =
      if b.connected
      then (let (position, t) = T.positions_get trade_id b.terminal in
          let (profit, b') = close_found trade_id position (record b { terminal = t }) in
          (some profit, b'))
      else (none, b)

  -- The broker as the scheduler uses it.
  abbrev pub mt5_broker : Broker
  mt5_broker = record {
    St = Mt5 T.St;
    place = place;
    wait_result = wait_result;
    start_of_day_balance = λ b. b.start_of_day_balance;
  }

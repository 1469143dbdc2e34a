-- ===== src/Broker/Mt5/Flat.antt =====
-- The results of the MetaTrader 5 broker while nobody calls `close_position`, as the program never does.
use Prim.Native.String.{String}
use telegram_olymptrade_sign.Prelude.{
  ℕ, zero, suc, ◌≡◌, refl, inl, inr, true, false, Option, none, some, List, [], ◌∷◌, All, arith,
  str_eq, Bool-cases, if◌then◌else◌,
}
use telegram_olymptrade_sign.Prelude.Int.{ℤ, pos}
use telegram_olymptrade_sign.Config.{Time}
use telegram_olymptrade_sign.Domain.Gale.{Stage}
use telegram_olymptrade_sign.Domain.Signal.{Signal}
use telegram_olymptrade_sign.Domain.State.{tie, timeout}
use telegram_olymptrade_sign.Broker.{Waited, reported, broker_auth, failed, rejected}
use telegram_olymptrade_sign.Broker.Mt5.{SendResult, Terminal, Mt5, lookup}
use telegram_olymptrade_sign.Broker.Mt5.Trading.{
  after_send, order_of, send_order, broker_symbol, place, result_of_profit, poll_for_close,
  wait_result,
}

module _ (T : Terminal) where
  -- Every profit that the broker remembers is zero.
  abbrev pub IsFlat : Mt5 T.St → Type 0
  IsFlat b = All (λ (ticket, profit). profit ≡ pos 0) b.last_known_profit

  -- A result that says nothing of the trade: a tie, a timeout, or BrokerAuthError.
  pub data IsMute : Waited → Type 0 where
    tied : IsMute (reported tie)
    late : IsMute (reported timeout)
    refused : IsMute (failed broker_auth)

  after_send-IsFlat :
      (answer : Option SendResult) (b : Mt5 T.St) → IsFlat b → IsFlat (after_send T answer b).1
  unfolding after_send
  after_send-IsFlat none b h = h
  after_send-IsFlat (some r) b h = ground arith

  send_order-IsFlat :
      (signal : Signal) (stage : Stage) (symbol : Option String) (b : Mt5 T.St)
      → IsFlat b
      → IsFlat (send_order T signal stage symbol b).1
  unfolding send_order
  send_order-IsFlat signal stage none b h = h
  send_order-IsFlat signal stage (some symbol) b h =
      let (answer, t) = T.order_send (order_of T signal stage symbol) b.terminal in
      after_send-IsFlat answer (record b { terminal = t }) h

  pub place-IsFlat :
      (signal : Signal) (stage : Stage) (amount : ℕ) (b : Mt5 T.St)
      → IsFlat b
      → IsFlat (place T signal stage amount b).1
  unfolding place
  place-IsFlat signal stage amount b h =
      let sent = send_order T signal stage (broker_symbol T signal.pair b) b in
      elim b.connected as (λ c. IsFlat (if c then sent else (rejected broker_auth, b)).1) [
        | true ↦ send_order-IsFlat signal stage (broker_symbol T signal.pair b) b h
        | false ↦ h
      ]

  lookup-flat :
      (ticket : String) (profits : List (String × ℤ))
      → All (λ (t, profit). profit ≡ pos 0) profits
      → result_of_profit T (lookup ticket profits) ≡ tie
  unfolding lookup result_of_profit
  lookup-flat ticket [] h = refl
  lookup-flat ticket ((t, p) ∷ rest) (e, h) = elim (Bool-cases (str_eq t ticket)) [
    | inl same ↦ rw (lookup, same, e) refl
    | inr other ↦ rw (lookup, other) (lookup-flat ticket rest h)
  ]

  -- A wait that says nothing of its trade and remembers no profit.
  abbrev pub Mute : Waited × Mt5 T.St → Type 0
  Mute (answer, b) = IsMute answer × IsFlat b

  poll_for_close-IsMute :
      (polls : ℕ) (ticket : String) (b : Mt5 T.St)
      → IsFlat b
      → Mute (poll_for_close T polls ticket b)
  unfolding poll_for_close
  poll_for_close-IsMute zero ticket b h = (late, h)
  poll_for_close-IsMute (suc polls) ticket b h =
      let (position, t) = T.positions_get ticket b.terminal in
      let b' : Mt5 T.St = record b { terminal = t } in
      let flat = lookup-flat ticket b.last_known_profit h in
      elim position
        as (λ p. Mute (elim p [
          | some _ ↦ poll_for_close T polls ticket b'
          | none ↦ (reported (result_of_profit T (lookup ticket b.last_known_profit)), b')
        ])) [ some p ↦ poll_for_close-IsMute polls ticket b' h | none ↦ (rw flat tied, h) ]

  -- While every profit that the broker remembers is zero, as on a new broker and after each `place`, a
  -- wait gives a tie, a timeout, or BrokerAuthError without a session, never a win or a loss, and leaves
  -- the profits at zero.
  pub wait_result-IsMute :
      (ticket : String) (limit : Time) (b : Mt5 T.St)
      → IsFlat b
      → Mute (wait_result T ticket limit b)
  unfolding wait_result
  wait_result-IsMute ticket limit b h =
      let polled = poll_for_close T (T.polls_within limit b.terminal) ticket b in
      elim b.connected as (λ c. Mute (if c then polled else (failed broker_auth, b))) [
        | true ↦ poll_for_close-IsMute (T.polls_within limit b.terminal) ticket b h
        | false ↦ (refused, h)
      ]

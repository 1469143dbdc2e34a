-- ===== src/Broker/Mt5/Placing.antt =====
-- What `place` of the MetaTrader 5 broker promises, and that its cache of symbols changes no order.
use Prim.Native.String.{String}
use telegram_olymptrade_sign.Prelude.{
  ℕ, ◌≡◌, ◌≢◌, refl, sym, ap, ◌∙◌, Bool, true, false, Option, none, some, List, [], ◌∷◌, arith,
  str_eq, eq_iff, eq_refl, Bool-cases, Option-cases, inl, inr, if◌then◌else◌, ◌==◌,
}
use telegram_olymptrade_sign.Prelude.Int.{pos}
use telegram_olymptrade_sign.Domain.Gale.{Stage}
use telegram_olymptrade_sign.Domain.Signal.{Signal}
use telegram_olymptrade_sign.Broker.{Placed, accepted, rejected, broker_auth}
use telegram_olymptrade_sign.Broker.Mt5.{
  SendResult, Terminal, Mt5, lookup, resolve_in, load_symbols, load_symbol_cache, known_input_pairs,
}
use telegram_olymptrade_sign.Broker.Mt5.Trading.{
  res_s_ok, broker_symbol, order_of, after_send, send_order, place,
}

module _ (T : Terminal) where
  -- An accepted order is one that the terminal executed: the order of the signal and stage, on the symbol
  -- of the pair. A refused one leaves the remembered profits as they were.
  abbrev pub IsExecuted : Signal → Stage → Mt5 T.St → Placed × Mt5 T.St → Type 0
  IsExecuted signal stage b (accepted id, b') =
      (b.connected ≡ true)
      × ((symbol : String) × (broker_symbol T signal.pair b ≡ some symbol)
          × ((r : SendResult) × ((T.order_send (order_of T signal stage symbol) b.terminal).0
                ≡ some r)
              × (r.retcode ≡ res_s_ok)
              × (r.order ≢ 0)
              × (id ≡ T.text_of_int r.order)
              × (lookup id b'.last_known_profit ≡ some (pos 0))))
  IsExecuted signal stage b (rejected e, b') = b'.last_known_profit ≡ b.last_known_profit

  abbrev Sent : Option SendResult → Mt5 T.St → Placed × Mt5 T.St → Type 0
  Sent answer b (accepted id, b') =
      (r : SendResult) × (answer ≡ some r)
      × (r.retcode ≡ res_s_ok)
      × (r.order ≢ 0)
      × (id ≡ T.text_of_int r.order)
      × (lookup id b'.last_known_profit ≡ some (pos 0))
  Sent answer b (rejected e, b') = b'.last_known_profit ≡ b.last_known_profit

  after_send-Sent :
      (answer : Option SendResult) (b : Mt5 T.St) → Sent answer b (after_send T answer b)
  unfolding after_send lookup
  after_send-Sent none b = refl
  after_send-Sent (some r) b = elim (Bool-cases (r.retcode == res_s_ok)) [
    | inr e ↦ rw (after_send, e) refl
    | inl ok ↦ elim (Bool-cases (r.order == 0)) [
      | inl e ↦ rw (after_send, ok, e) refl
      | inr e ↦
          rw (after_send, ok, e)
            (r, refl, ground arith, ground arith, refl, rw (eq_refl (T.text_of_int r.order)))
    ]
  ]

  Sent-IsExecuted :
      (signal : Signal) (stage : Stage) (symbol : String) (b b' : Mt5 T.St)
      (placed : Placed × Mt5 T.St)
      → b.connected ≡ true
      → broker_symbol T signal.pair b ≡ some symbol
      → b'.last_known_profit ≡ b.last_known_profit
      → Sent (T.order_send (order_of T signal stage symbol) b.terminal).0 b' placed
      → IsExecuted signal stage b placed
  Sent-IsExecuted signal stage symbol b b' (accepted id, b2) c e same
        (r, sent, ok, some_order, name, zero) =
      (c, (symbol, e, (r, sent, ok, some_order, name, zero)))
  Sent-IsExecuted signal stage symbol b b' (rejected x, b2) c e same sent = sent ∙ same

  send_order-IsExecuted :
      (signal : Signal) (stage : Stage) (symbol : Option String) (b : Mt5 T.St)
      → b.connected ≡ true
      → broker_symbol T signal.pair b ≡ symbol
      → IsExecuted signal stage b (send_order T signal stage symbol b)
  unfolding send_order
  send_order-IsExecuted signal stage none b c e = refl
  send_order-IsExecuted signal stage (some symbol) b c e =
      let (answer, t) = T.order_send (order_of T signal stage symbol) b.terminal in
      let b' : Mt5 T.St = record b { terminal = t } in
      Sent-IsExecuted signal stage symbol b b' (after_send T answer b') c e refl
        (after_send-Sent answer b')

  -- Where `place` gives a trade, the broker has a session, the pair has a symbol, and the terminal answered
  -- to the order of that stage, with the lots of the stage, that it was done and under a number, whose
  -- text is the id of the trade; its remembered profit is zero. Where it raises, no profit is touched.
  pub place-IsExecuted :
      (signal : Signal) (stage : Stage) (amount : ℕ) (b : Mt5 T.St)
      → IsExecuted signal stage b (place T signal stage amount b)
  unfolding place
  place-IsExecuted signal stage amount b = go b.connected refl
    where
      go :
          (c : Bool)
          → b.connected ≡ c
          → IsExecuted signal stage b (
              if c
              then send_order T signal stage (broker_symbol T signal.pair b) b
              else (rejected broker_auth, b))
      go true e = send_order-IsExecuted signal stage (broker_symbol T signal.pair b) b e refl
      go false e = refl

  -- The cache says of no pair anything but what the terminal says.
  abbrev IsFaithful : Mt5 T.St → Type 0
  IsFaithful b = (pair : String) → broker_symbol T pair b ≡ resolve_in T pair b

  IsFaithful-cons :
      (b : Mt5 T.St) (pair symbol : String)
      → resolve_in T pair b ≡ some symbol
      → IsFaithful b
      → IsFaithful (record b { symbol_cache = (pair, symbol) ∷ b.symbol_cache })
  unfolding broker_symbol lookup resolve_in
  IsFaithful-cons b pair symbol e h other = elim (Bool-cases (str_eq pair other)) [
    | inl same ↦
        rw (broker_symbol, lookup, same)
          (sym e ∙ ap (λ p. resolve_in T p b) ((eq_iff pair other).0 same))
    | inr different ↦ rw (broker_symbol, lookup, different) (h other)
  ]

  load_symbols-IsFaithful :
      (pairs : List String) (b : Mt5 T.St) → IsFaithful b → IsFaithful (load_symbols T pairs b)
  unfolding load_symbols
  load_symbols-IsFaithful [] b h = h
  load_symbols-IsFaithful (pair ∷ pairs) b h = elim (Option-cases (resolve_in T pair b)) [
    | inl e ↦ λ other. rw (load_symbols, e) (load_symbols-IsFaithful pairs b h other)
    | inr (symbol, e) ↦ λ other.
        rw (load_symbols, e)
          (load_symbols-IsFaithful pairs
            (record b { symbol_cache = (pair, symbol) ∷ b.symbol_cache })
            (IsFaithful-cons b pair symbol e h) other)
  ]

  -- On a broker without cached symbols, filling the cache changes the symbol of no pair: what `place` takes
  -- from the cache is what it would ask the terminal for.
  load_symbol_cache-IsFaithful :
      (b : Mt5 T.St) → b.symbol_cache ≡ [] → IsFaithful (load_symbol_cache T b)
  unfolding load_symbol_cache broker_symbol lookup
  load_symbol_cache-IsFaithful b none_yet =
      load_symbols-IsFaithful known_input_pairs b (λ pair. rw (broker_symbol, none_yet))

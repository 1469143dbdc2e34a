-- ===== src/Domain/State/Steps.antt =====
-- The order in which the statuses of domain/state.py follow one another, over every sequence of
-- events: a caller that drops a refused event keeps the state that it had.
use telegram_olymptrade_sign.Prelude.{
  ℕ, suc, ◌+◌, ◌*◌, ◌≤◌, ◌≡◌, ◌≢◌, Bool, true, false, Option, none, some, List, [], ◌∷◌, arith,
  if◌then◌else◌, Option-cases, ◌∙◌, inl, inr,
}
use telegram_olymptrade_sign.Prelude.Int.{neg_ℕ, ◌≤ℤ◌}
use telegram_olymptrade_sign.Config.{Config, Time}
use telegram_olymptrade_sign.Domain.Signal.{Signal}
use telegram_olymptrade_sign.Domain.State.{
  Status, pending, placed_initial, placed_gale1, placed_gale2, done_win, done_loss, StageResult,
  SignalState, Event, fire_event, result_event, is_terminal, from_signal, transition,
}
use telegram_olymptrade_sign.Domain.State.Invariant.{
  IsCascade, from_signal-IsCascade, transition-IsCascade, lost3,
}

-- The arrows of the state diagram.
abbrev pub may_follow : Status → Status → Bool
may_follow pending placed_initial = true
may_follow pending Status.error = true
may_follow placed_initial placed_gale1 = true
may_follow placed_gale1 placed_gale2 = true
may_follow placed_gale2 done_loss = true
may_follow placed_initial done_win = true
may_follow placed_gale1 done_win = true
may_follow placed_gale2 done_win = true
may_follow placed_initial Status.error = true
may_follow placed_gale1 Status.error = true
may_follow placed_gale2 Status.error = true
may_follow _ _ = false

-- The events that a status takes: a fire while pending, a result while placed.
abbrev pub takes : Status → Event → Bool
takes pending (fire_event _) = true
takes placed_initial (result_event _ _) = true
takes placed_gale1 (result_event _ _) = true
takes placed_gale2 (result_event _ _) = true
takes _ _ = false

-- A state of a cascade accepts an event exactly if its status takes it, and moves along an arrow of
-- the diagram; every other event is refused with a reason and leaves no new state.
pub transition_follows_diagram :
    (signal : Signal) (c : Config) (s : SignalState) (e : Event)
    → IsCascade signal c s
    → ((transition s e c).success ≡ takes s.state e)
      × ((s' : SignalState)
          → (transition s e c).new_state ≡ some s'
          → (takes s.state e ≡ true) × (may_follow s.state s'.state ≡ true))
      × (takes s.state e ≡ false
          → ((transition s e c).new_state ≡ none) × ((transition s e c).reason ≢ none))
unfolding transition
transition_follows_diagram signal c s e h = (ground arith, λ s' t. ground arith, λ n. ground arith)

-- The state after an event that may be refused.
abbrev pub or_keep : SignalState → Option SignalState → SignalState
or_keep s none = s
or_keep s (some s') = s'

abbrev pub next : Config → SignalState → Event → SignalState
next c s e = or_keep s (transition s e c).new_state

unfoldable pub run : Config → SignalState → List Event → SignalState
run c s [] = s
run c s (e ∷ es) = run c (next c s e) es

-- How many events a run accepts.
accepted : Config → SignalState → List Event → ℕ
accepted c s [] = 0
accepted c s (e ∷ es) =
    let rest = accepted c (next c s e) es in if (transition s e c).success then suc rest else rest

-- How many more events a status can accept.
abbrev pub rank : Status → ℕ
rank pending = 4
rank placed_initial = 3
rank placed_gale1 = 2
rank placed_gale2 = 1
rank _ = 0

next-IsCascade :
    (signal : Signal) (c : Config) (s : SignalState) (e : Event)
    → IsCascade signal c s
    → IsCascade signal c (next c s e)
next-IsCascade signal c s e h = elim (Option-cases (transition s e c).new_state) [
  | inl none_new ↦ rw (none_new, next) h
  | inr (s', new) ↦ rw (new, next) (transition-IsCascade signal c s s' e h new)
]

run_from-IsCascade :
    (signal : Signal) (c : Config) (s : SignalState) (es : List Event)
    → IsCascade signal c s
    → IsCascade signal c (run c s es)
unfolding run
run_from-IsCascade signal c s [] h = h
run_from-IsCascade signal c s (e ∷ es) h =
    run_from-IsCascade signal c (next c s e) es (next-IsCascade signal c s e h)

-- Whatever events arrive in whatever order, the cascade keeps the id, the pair and the direction of
-- its signal, its stage and its stake are those of its status, its profit is that of the stakes lost
-- and won on the way to the status, and it has an error reason exactly if its status is error.
pub run-IsCascade :
    (signal : Signal) (c : Config) (es : List Event)
    → IsCascade signal c (run c (from_signal signal c) es)
run-IsCascade signal c es =
    run_from-IsCascade signal c (from_signal signal c) es (from_signal-IsCascade signal c)

-- Whatever events arrive, a cascade never loses more than its three stakes, and a cascade that is
-- done_loss has lost exactly all three.
run_loss_bounded :
    (signal : Signal) (c : Config) (es : List Event)
    → let s = run c (from_signal signal c) es in
      (neg_ℕ (lost3 c * 100) ≤ℤ s.cumulative_pnl)
      × (s.state ≡ done_loss → s.cumulative_pnl ≡ neg_ℕ (lost3 c * 100))
run_loss_bounded signal c es = ground (arith, run-IsCascade signal c es)

abbrev one_if : Bool → ℕ
one_if b = if b then 1 else 0

rank-may_follow : (p q : Status) → may_follow p q ≡ true → rank q + 1 ≤ rank p
rank-may_follow p q h = ground arith

rank-next :
    (signal : Signal) (c : Config) (s : SignalState) (e : Event)
    → IsCascade signal c s
    → rank (next c s e).state + one_if (transition s e c).success ≤ rank s.state
unfolding transition
rank-next signal c s e h = ground arith

accepted-rank :
    (signal : Signal) (c : Config) (s : SignalState) (es : List Event)
    → IsCascade signal c s
    → accepted c s es + rank (run c s es).state ≤ rank s.state
unfolding accepted run
accepted-rank signal c s [] h = omega arith
accepted-rank signal c s (e ∷ es) h = ground (
  arith,
  accepted-rank signal c (next c s e) es (next-IsCascade signal c s e h),
  rank-next signal c s e h,
)

-- A cascade accepts at most four events, and one that has accepted four is terminal.
accepted_bounded :
    (signal : Signal) (c : Config) (es : List Event)
    → let s = from_signal signal c in
      (accepted c s es ≤ 4) × (4 ≤ accepted c s es → is_terminal (run c s es).state ≡ true)
unfolding from_signal
accepted_bounded signal c es =
    ground
      (arith, accepted-rank signal c (from_signal signal c) es (from_signal-IsCascade signal c))

-- A fire and three results, at any times, always end the cascade.
fire_and_three_results :
    (signal : Signal) (c : Config) (r1 r2 r3 : StageResult) (t0 t1 t2 t3 : Time)
    → is_terminal
        (run c
          (from_signal signal c)
          (fire_event t0 ∷ result_event r1 t1 ∷ result_event r2 t2 ∷ result_event r3 t3 ∷ [])).state
      ≡ true
unfolding run from_signal transition
fire_and_three_results signal c r1 r2 r3 t0 t1 t2 t3 = ground arith

taken_has_state :
    (signal : Signal) (c : Config) (s : SignalState) (e : Event)
    → IsCascade signal c s
    → takes s.state e ≡ true
    → (transition s e c).new_state ≢ none
unfolding transition
taken_has_state signal c s e h t n = ground arith

-- A taken event has a new state, again of the cascade and along an arrow of the diagram.
pub transition_accepts :
    (signal : Signal) (c : Config) (s : SignalState) (e : Event)
    → IsCascade signal c s
    → takes s.state e ≡ true
    → (s' : SignalState) × ((transition s e c).success ≡ true)
      × ((transition s e c).new_state ≡ some s')
      × (may_follow s.state s'.state ≡ true)
      × IsCascade signal c s'
transition_accepts signal c s e h t = elim (Option-cases (transition s e c).new_state) [
  | inl nothing ↦ absurd (taken_has_state signal c s e h t nothing)
  | inr (s', new) ↦ (
    s',
    (transition_follows_diagram signal c s e h).0 ∙ t,
    new,
    ((transition_follows_diagram signal c s e h).1 s' new).1,
    transition-IsCascade signal c s s' e h new,
  )
]

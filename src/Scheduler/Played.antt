-- ===== src/Scheduler/Played.antt =====
-- A cascade of `_drive_cascade` that keeps to its times, round by round.
use telegram_olymptrade_sign.Prelude.{
  ℕ, suc, ◌≡◌, refl, inl, inr, true, false, Option, some, String, List, [], ◌∷◌, arith, Bool-cases,
  ap, ◌∙◌,
}
use telegram_olymptrade_sign.Config.{Time}
use telegram_olymptrade_sign.Domain.Gale.{Stage, initial}
use telegram_olymptrade_sign.Domain.Signal.{Signal}
use telegram_olymptrade_sign.Domain.State.{
  Status, SignalState, StageResult, transition, result_event, fire_event, is_placed, is_terminal,
}
use telegram_olymptrade_sign.Broker.{accepted}
use telegram_olymptrade_sign.Store.Rows.{Db}
use telegram_olymptrade_sign.Store.Statements.{
  record_stage_placed, Placing, inserted, already_exists, no_such_signal,
}
use telegram_olymptrade_sign.Scheduler.World.{Env, World, Exception, pure, ◌>>◌}
use telegram_olymptrade_sign.Scheduler.Triple.{Post, Post-bind}
use telegram_olymptrade_sign.Scheduler.Limits.{successful, status_is_pending, status_is_error}
use telegram_olymptrade_sign.Scheduler.Stages.{
  Round, stop, go, arm, fire, fired, after_fire, notify_result, notify_end, result_applied,
  apply_result_and_finalize, wait_for_stage_result,
}
use telegram_olymptrade_sign.Scheduler.Supervisor.{
  stage_recorded, record_placed, after_place, broker_place, place, place_if, round,
}
use telegram_olymptrade_sign.Scheduler.Shows.{orders}
use telegram_olymptrade_sign.Scheduler.Verdict.{
  Answers, IsInsertRefusal, IsRefusal, record_stage_placed-IsRefusal,
}

module _ (env : Env) (signal : Signal) where
  -- How many readings of the clock a world has seen, and its orders.
  abbrev pub Seen : ℕ → List (Stage × ℕ) → World env.broker.St → Type 0
  Seen n os w = (w.ticks ≡ n) × (orders w.trace ≡ os)

  notify_result-Seen :
      (stage : Stage) (r : StageResult) (amount : ℕ) (s : SignalState) (n : ℕ)
      (os : List (Stage × ℕ)) (w : World env.broker.St)
      → Seen n os w
      → Post
          (λ _ w'. Seen n os w')
          (IsInsertRefusal signal)
          (notify_result env signal stage r amount s w)
  unfolding notify_result
  notify_result-Seen stage StageResult.win amount s n os w h = h
  notify_result-Seen stage _ amount s n os w h = h

  notify_end-Seen :
      (s : SignalState) (n : ℕ) (os : List (Stage × ℕ)) (w : World env.broker.St)
      → Seen n os w
      → Post (λ _ w'. Seen n os w') (IsInsertRefusal signal) (notify_end env signal s w)
  unfolding notify_end
  notify_end-Seen s n os w h = elim (Bool-cases (is_terminal s.state)) [
    | inl e ↦ rw (e, notify_end) h
    | inr e ↦ rw (e, notify_end) h
  ]

  -- The state that a taken result leads to.
  abbrev pub Leads : SignalState → StageResult → Time → SignalState → Type 0
  Leads s r now s' = successful (transition s (result_event r now) env.config) ≡ some s'

  result_applied-Seen :
      (s s' : SignalState) (stage : Stage) (r : StageResult) (amount : ℕ) (id : String) (now : Time)
      (o : Option SignalState) (n : ℕ) (os : List (Stage × ℕ)) (w : World env.broker.St)
      → o ≡ some s'
      → Seen n os w
      → Post
          (λ x w'. (x ≡ s') × Seen n os w')
          (IsInsertRefusal signal)
          (result_applied env signal s stage r amount id now o w)
  unfolding result_applied
  result_applied-Seen s s' stage r amount id now o n os w e h =
      rw (e, result_applied)
        (Post-bind (IsInsertRefusal signal) (λ _ w'. Seen n os w') (λ x w'. (x ≡ s') × Seen n os w')
          (notify_result env signal stage r amount s') (λ _. notify_end env signal s' >> pure s') _
          (notify_result-Seen stage r amount s' n os _ h)
          (λ _ w2 h2.
            Post-bind (IsInsertRefusal signal) (λ _ w'. Seen n os w')
              (λ x w'. (x ≡ s') × Seen n os w') (notify_end env signal s') (λ _. pure s') w2
              (notify_end-Seen s' n os w2 h2) (λ _ w3 h3. (refl, h3))))

  stage_recorded-Seen :
      (p : Placing) (db : Db) (n : ℕ) (os : List (Stage × ℕ)) (w : World env.broker.St)
      → IsRefusal signal w.db p
      → Seen n os w
      → Post
          (λ _ w'. (w'.broker ≡ w.broker) × Seen n os w')
          (IsInsertRefusal signal)
          (stage_recorded env signal (p, db) w)
  stage_recorded-Seen (inserted id) db n os w refused h = (refl, h)
  stage_recorded-Seen (already_exists id) db n os w refused h = refused
  stage_recorded-Seen (no_such_signal id) db n os w refused h = refused

no_error : (st : Status) → is_placed st ≡ true → status_is_error st ≡ false
no_error st p = ground arith

not_pending : (st : Status) → is_placed st ≡ true → status_is_pending st ≡ false
not_pending st p = ground arith

-- A round that goes on to a state, with the readings and the orders it leaves.
abbrev pub Goes :
    (env : Env) (signal : Signal)
    → SignalState
    → ℕ
    → List (Stage × ℕ)
    → Round
    → World env.broker.St
    → Type 0
Goes env signal t n os (stop s) w = ⊥
Goes env signal t n os (go s) w = (s ≡ t) × Seen env signal n os w

module _ (env : Env) (signal : Signal) where
  fired-Goes_to :
      (s s' : SignalState) (stage : Stage) (o : Option SignalState) (n : ℕ) (os : List (Stage × ℕ))
      (w : World env.broker.St)
      → o ≡ some s'
      → is_placed s'.state ≡ true
      → Seen env signal n os w
      → Post (Goes env signal s' (suc n) os) (IsInsertRefusal signal) (fired env signal stage s o w)
  unfolding fired after_fire
  fired-Goes_to s s' stage o n os w fires placed h =
      rw (fires, no_error s'.state placed, fired) (refl, (ap suc h.0, h.1))

  pub fire-Goes :
      (s s' : SignalState) (stage : Stage) (os : List (Stage × ℕ)) (w : World env.broker.St)
      → status_is_pending s.state ≡ true
      → successful (transition s (fire_event (env.clock w.ticks)) env.config) ≡ some s'
      → is_placed s'.state ≡ true
      → orders w.trace ≡ os
      → Post
          (Goes env signal s' (suc (suc w.ticks)) os)
          (IsInsertRefusal signal)
          (fire env signal stage s w)
  unfolding fire
  fire-Goes s s' stage os w p fires placed h =
      rw (p, fire) (fired-Goes_to s s' stage _ (suc w.ticks) os _ fires placed (refl, h))

module _ (env : Env) (signal : Signal) (results : Stage → StageResult)
    (answers : Answers env signal results) where
  wait_for_stage_result-Seen :
      (stage : Stage) (amount : ℕ) (b : env.broker.St) (s : SignalState) (n : ℕ)
      (os : List (Stage × ℕ)) (w : World env.broker.St)
      → w.broker ≡ (env.broker.place signal stage amount b).1
      → Seen env signal n os w
      → Post
          (λ r w'. (r ≡ results stage) × Seen env signal (suc n) os w')
          (IsInsertRefusal signal)
          (wait_for_stage_result env signal (answers stage amount b).0 s w)
  unfolding wait_for_stage_result
  wait_for_stage_result-Seen stage amount b s n os w same h =
      rw (same, wait_for_stage_result) ((answers stage amount b).2 _, (ap suc h.0, h.1))

  -- An order that the broker accepts comes to its result at the second reading of the clock.
  after_place-Goes :
      (s t : SignalState) (stage : Stage) (amount : ℕ) (at : Time) (b : env.broker.St) (n : ℕ)
      (os : List (Stage × ℕ)) (w : World env.broker.St)
      → Leads env signal s (results stage) (env.clock (suc n)) t
      → w.broker ≡ (env.broker.place signal stage amount b).1
      → Seen env signal n os w
      → Post
          (Goes env signal t (suc (suc n)) os)
          (IsInsertRefusal signal)
          (after_place env signal s stage amount at (accepted (answers stage amount b).0) w)
  unfolding after_place record_placed apply_result_and_finalize
  after_place-Goes s t stage amount at b n os w leads same h =
      let id = (answers stage amount b).0 in
      let E : Exception → World env.broker.St → Type 0 = IsInsertRefusal signal in
      let G = Goes env signal t (suc (suc n)) os in
      let (outcome, db') =
        record_stage_placed env.sha1_hex signal.signal_id stage signal.pair signal.direction amount
          at s.expires_at_unix (some id) w.db in
      Post-bind E (λ _ w'. (w'.broker ≡ w.broker) × Seen env signal n os w') G
        (record_placed env signal s stage amount at id) _ w
        (stage_recorded-Seen env signal outcome db' n os w
          (record_stage_placed-IsRefusal env.sha1_hex signal stage amount at s.expires_at_unix
            (some id) w.db)
          h)
        (λ db_id w1 h1.
          Post-bind E (λ r w'. (r ≡ results stage) × Seen env signal (suc n) os w') G
            (wait_for_stage_result env signal id s) _ _
            (wait_for_stage_result-Seen stage amount b s n os _ (h1.0 ∙ same) h1.1)
            (λ r w2 h2.
              Post-bind E (λ x w'. (x ≡ t) × Seen env signal (suc (suc n)) os w') G
                (apply_result_and_finalize env signal s stage r amount db_id) (λ x. pure (go x)) w2
                (result_applied-Seen env signal s t stage r amount db_id _ _ (suc (suc n)) os _
                  (rw (h2.0, h2.1.0) leads) (ap suc h2.1.0, h2.1.1))
                (λ x w3 h3. h3)))

  -- A stage that is placed comes to its result at the third reading of the clock.
  place-Goes :
      (s t : SignalState) (stage : Stage) (n : ℕ) (os : List (Stage × ℕ)) (w : World env.broker.St)
      → Leads env signal s (results stage) (env.clock (suc (suc n))) t
      → Seen env signal n os w
      → Post
          (Goes env signal t (suc (suc (suc n))) ((stage, s.amount) ∷ os))
          (IsInsertRefusal signal)
          (place env signal stage s w)
  unfolding place broker_place
  place-Goes s t stage n os w leads h =
      rw ((answers stage s.amount w.broker).1, place)
        (after_place-Goes s t stage s.amount (env.clock w.ticks) w.broker (suc n)
          ((stage, s.amount) ∷ os) _ leads refl (ap suc h.0, ap (λ x. (stage, s.amount) ∷ x) h.1))

  place_if-Goes :
      (r : Round) (s t : SignalState) (stage : Stage) (n : ℕ) (os : List (Stage × ℕ))
      (w : World env.broker.St)
      → Leads env signal s (results stage) (env.clock (suc (suc n))) t
      → Goes env signal s n os r w
      → Post
          (Goes env signal t (suc (suc (suc n))) ((stage, s.amount) ∷ os))
          (IsInsertRefusal signal)
          (place_if env signal stage r w)
  unfolding place_if
  place_if-Goes (stop x) s t stage n os w leads goes = absurd goes
  place_if-Goes (go x) s t stage n os w leads goes =
      rw⁻¹ goes.0 (place-Goes x t stage n os w (rw goes.0 leads) goes.1)

  -- The round of a state that is placed already.
  pub placed-Goes :
      (s t : SignalState) (stage : Stage) (amount n : ℕ) (os : List (Stage × ℕ))
      (w : World env.broker.St)
      → is_placed s.state ≡ true
      → s.amount ≡ amount
      → Leads env signal s (results stage) (env.clock (suc (suc (suc n)))) t
      → Seen env signal n os w
      → Post
          (Goes env signal t (suc (suc (suc (suc n)))) ((stage, amount) ∷ os))
          (IsInsertRefusal signal)
          (round env signal stage s w)
  unfolding round place_if arm fire
  placed-Goes s t stage amount n os w p is_amount leads h = rw⁻¹ is_amount (
      rw (not_pending s.state p, round) (place-Goes s t stage (suc n) os _ leads (ap suc h.0, h.1)))

  -- The first round, where the fire comes in time.
  pub fired-Goes :
      (s s' t : SignalState) (amount : ℕ) (w : World env.broker.St)
      → status_is_pending s.state ≡ true
      → successful (transition s (fire_event (env.clock (suc w.ticks))) env.config) ≡ some s'
      → is_placed s'.state ≡ true
      → s'.amount ≡ amount
      → Leads env signal s' (results initial) (env.clock (suc (suc (suc (suc (suc w.ticks)))))) t
      → orders w.trace ≡ []
      → Post
          (Goes env signal t (suc (suc (suc (suc (suc (suc w.ticks)))))) ((initial, amount) ∷ []))
          (IsInsertRefusal signal)
          (round env signal initial s w)
  unfolding round place_if arm fire fired after_fire
  fired-Goes s s' t amount w p fires placed is_amount leads h =
      Post-bind (IsInsertRefusal signal) (Goes env signal s' (suc (suc (suc w.ticks))) [])
        (Goes env signal t (suc (suc (suc (suc (suc (suc w.ticks)))))) ((initial, amount) ∷ []))
        (fire env signal initial s) (place_if env signal initial) _
        (fire-Goes env signal s s' initial [] _ p fires placed h)
        (λ r w' goes.
          rw⁻¹ is_amount (place_if-Goes r s' t initial (suc (suc (suc w.ticks))) [] w' leads goes))

-- ===== src/Scheduler/Ends.antt =====
-- The end of `_drive_cascade` for a cascade that keeps to its times.
use telegram_olymptrade_sign.Prelude.{
  ℕ, suc, ◌+◌, ◌≤◌, ◌≡◌, ◌≢◌, refl, inl, inr, true, false, none, some, String, List, [], ◌∷◌, arith,
  Bool, Bool-cases, ap, ◌∙◌, if◌then◌else◌,
}
use telegram_olymptrade_sign.Prelude.Int.{pos, ◌+ℤ◌}
use telegram_olymptrade_sign.Config.{Config, Time, seconds}
use telegram_olymptrade_sign.Domain.Gale.{Stage, initial, gale1, gale2}
use telegram_olymptrade_sign.Domain.Signal.{Signal}
use telegram_olymptrade_sign.Domain.State.{
  Status, placed_initial, placed_gale1, placed_gale2, done_loss, SignalState, StageResult, is_loss,
  from_signal, transition, fire_event, is_placed, stage_pnl,
}
use telegram_olymptrade_sign.Domain.State.Invariant.{
  IsCascade, stage_of, stake, from_signal-IsCascade,
}
use telegram_olymptrade_sign.Domain.State.Steps.{transition_accepts}
use telegram_olymptrade_sign.Domain.State.Windows.{after_loss}
use telegram_olymptrade_sign.Broker.{Waited, reported}
use telegram_olymptrade_sign.Broker.DryRun.{dry_run_broker, trade_id_for, dry_wait-dry_place}
use telegram_olymptrade_sign.Scheduler.World.{Env, World, Exec}
use telegram_olymptrade_sign.Scheduler.Triple.{Post, Post-bind}
use telegram_olymptrade_sign.Scheduler.Limits.{successful}
use telegram_olymptrade_sign.Scheduler.Stages.{stage_result_of, Round, stop, go}
use telegram_olymptrade_sign.Scheduler.Supervisor.{round, after_round, drive_cascade}
use telegram_olymptrade_sign.Scheduler.Shows.{orders}
use telegram_olymptrade_sign.Scheduler.Ladder.{ladder1, ladder2, ladder3}
use telegram_olymptrade_sign.Scheduler.Verdict.{
  ended, verdict, staked, total, Answers, IsInsertRefusal, result_taken,
}
use telegram_olymptrade_sign.Scheduler.Played.{Seen, Leads, Goes, placed-Goes, fired-Goes}

-- A stage that is not lost ends the cascade.
no_stage_after : (r : StageResult) (st : Status) → is_loss r ≡ false → stage_of (ended r st) ≡ none
no_stage_after r st h = ground arith

ended_lost : (r : StageResult) (st : Status) → is_loss r ≡ true → ended r st ≡ st
ended_lost r st h = ground arith

ended_unlost : (r : StageResult) (st st' : Status) → is_loss r ≡ false → ended r st ≡ ended r st'
ended_unlost r st st' h = ground arith

same_branches : (b : Bool) (os : List (Stage × ℕ)) → (if b then os else os) ≡ os
same_branches b os = ground arith

module _ (env : Env) (signal : Signal) where
  after_round-Goes :
      (r : Round) (rest : SignalState → Exec env.broker.St SignalState)
      (Q : SignalState → World env.broker.St → Type 0) (t : SignalState) (n : ℕ)
      (os : List (Stage × ℕ)) (w : World env.broker.St)
      → Goes env signal t n os r w
      → ((w' : World env.broker.St)
          → Seen env signal n os w'
          → Post Q (IsInsertRefusal signal) (rest t w'))
      → Post Q (IsInsertRefusal signal) (after_round env signal rest r w)
  unfolding after_round
  after_round-Goes (stop s) rest Q t n os w goes k = absurd goes
  after_round-Goes (go s) rest Q t n os w goes k = rw goes.0 (k w goes.1)

  -- A round and what follows it.
  drive_round :
      (fuel : ℕ) (Q : SignalState → World env.broker.St → Type 0) (s t : SignalState)
      (stage : Stage) (n : ℕ) (os : List (Stage × ℕ)) (w : World env.broker.St)
      → s.stage ≡ some stage
      → Post (Goes env signal t n os) (IsInsertRefusal signal) (round env signal stage s w)
      → ((w' : World env.broker.St)
          → Seen env signal n os w'
          → Post Q (IsInsertRefusal signal) (drive_cascade env signal fuel t w'))
      → Post Q (IsInsertRefusal signal) (drive_cascade env signal (suc fuel) s w)
  unfolding drive_cascade
  drive_round fuel Q s t stage n os w e goes k =
      rw (e, drive_cascade)
        (Post-bind (IsInsertRefusal signal) (Goes env signal t n os) Q (round env signal stage s)
          (after_round env signal (drive_cascade env signal fuel)) w goes
          (λ r w' goes'. after_round-Goes r (drive_cascade env signal fuel) Q t n os w' goes' k))

  drive_ended :
      (fuel : ℕ) (Q : SignalState → World env.broker.St → Type 0) (s : SignalState)
      (w : World env.broker.St)
      → s.stage ≡ none
      → Q s w
      → Post Q (IsInsertRefusal signal) (drive_cascade env signal (suc fuel) s w)
  unfolding drive_cascade
  drive_ended fuel Q s w e q = rw (e, drive_cascade) q

module _ (env : Env) (signal : Signal) (results : Stage → StageResult) where
  -- The cascade has ended in a status, after some orders and with what they brought.
  abbrev pub EndsIn : Status → List (Stage × ℕ) → SignalState → World env.broker.St → Type 0
  EndsIn st os s w = (s.state ≡ st) × (s.cumulative_pnl ≡ total results os) × (orders w.trace ≡ os)

  -- A state of the loop after some orders.
  abbrev Stood : Status → List (Stage × ℕ) → SignalState → Type 0
  Stood st os s =
      IsCascade signal env.config s × (s.state ≡ st) × (s.cumulative_pnl ≡ total results os)

  total-cons :
      (stage : Stage) (amount : ℕ) (os : List (Stage × ℕ))
      → total results os +ℤ stage_pnl amount (results stage) ≡ total results ((stage, amount) ∷ os)
  unfolding total
  total-cons stage amount os = refl

  -- A round that plays a stage, from the state of the loop before it and the placed state in it.
  stage_ends :
      (fuel : ℕ) (s p : SignalState) (st rest : Status) (stage : Stage) (now : Time) (amount n : ℕ)
      (os later : List (Stage × ℕ)) (w : World env.broker.St)
      → s.stage ≡ some stage
      → Stood st os p
      → is_placed st ≡ true
      → p.amount ≡ amount
      → (is_loss (results stage) ≡ true
          → st ≢ placed_gale2
          → now ≤ p.trigger_unix + seconds 300 + env.config.trigger_skew_tolerance_seconds)
      → ((t : SignalState)
          → Leads env signal p (results stage) now t
          → Post
              (Goes env signal t n ((stage, amount) ∷ os))
              (IsInsertRefusal signal)
              (round env signal stage s w))
      → ((t : SignalState) (w' : World env.broker.St)
          → is_loss (results stage) ≡ true
          → Stood (after_loss false st) ((stage, amount) ∷ os) t
          → (t.stage ≢ none → t.trigger_unix ≡ p.trigger_unix + seconds 300)
          → Seen env signal n ((stage, amount) ∷ os) w'
          → Post
              (EndsIn rest later)
              (IsInsertRefusal signal)
              (drive_cascade env signal (suc fuel) t w'))
      → Post
          (EndsIn
            (ended (results stage) rest)
            (if is_loss (results stage) then later else (stage, amount) ∷ os))
          (IsInsertRefusal signal)
          (drive_cascade env signal (suc (suc fuel)) s w)
  stage_ends fuel s p st rest stage now amount n os later w e stood placed is_amount in_time plays
        next =
      let r = results stage in
      let os' = (stage, amount) ∷ os in
      let (t, leads, h, pnl, is_st, trig) =
        result_taken signal env.config p r now stood.0 (ap is_placed stood.1 ∙ placed)
          (λ l other. in_time l (λ q. other (stood.1 ∙ q))) in
      let pnl' : t.cumulative_pnl ≡ total results os' =
        pnl
        ∙ ap (λ x. x +ℤ stage_pnl p.amount r) stood.2
        ∙ ap (λ x. total results os +ℤ stage_pnl x r) is_amount
        ∙ total-cons stage amount os in
      let is_st' : t.state ≡ ended r (after_loss false st) =
        is_st ∙ ap (λ x. ended r (after_loss false x)) stood.1 in
      let Q = EndsIn (ended r rest) (if is_loss r then later else os') in
      drive_round env signal (suc fuel) Q s t stage n os' w e (plays t leads) (λ w' seen.
        elim (Bool-cases (is_loss r)) [
          | inl lost ↦
              rw (lost, ended_lost r rest lost)
                (next t w' lost (h, is_st' ∙ ended_lost r _ lost, pnl') trig seen)
          | inr over ↦
              drive_ended env signal fuel Q t w'
                (h.stage_fits ∙ ap stage_of is_st' ∙ no_stage_after r _ over)
                (rw over (is_st' ∙ ended_unlost r _ rest over, pnl', seen.1))
        ])

-- A fire that comes in time places the first stage.
pub fire_places :
    (signal : Signal) (c : Config) (now : Time)
    → now ≤ signal.trigger_unix_initial + c.trigger_skew_tolerance_seconds
    → (p : SignalState) × (successful (transition (from_signal signal c) (fire_event now) c)
        ≡ some p)
      × IsCascade signal c p
      × (p.state ≡ placed_initial)
      × (p.trigger_unix ≡ signal.trigger_unix_initial)
      × (p.cumulative_pnl ≡ pos 0)
unfolding transition from_signal
fire_places signal c now le =
    let (p, succeeds, new, follows, h) =
      transition_accepts signal c (from_signal signal c) (fire_event now)
        (from_signal-IsCascade signal c) refl in
    (p, rw (succeeds, new, successful) refl, h, ground arith, ground arith, ground arith)

gale1_next :
    {signal : Signal} {c : Config} (t : SignalState)
    → IsCascade signal c t
    → t.state ≡ placed_gale1
    → t.stage ≢ none
gale1_next t h e = ground arith

module _ (env : Env) (signal : Signal) (results : Stage → StageResult)
    (answers : Answers env signal results) where
  abbrev tolerance : Time
  tolerance = env.config.trigger_skew_tolerance_seconds

  gale2_ends :
      (fuel : ℕ) (s : SignalState) (n : ℕ) (w : World env.broker.St)
      → Stood env signal results placed_gale2 (ladder2 env.config) s
      → Seen env signal n (ladder2 env.config) w
      → Post
          (EndsIn env signal results (ended (results gale2) done_loss) (ladder3 env.config))
          (IsInsertRefusal signal)
          (drive_cascade env signal (suc (suc fuel)) s w)
  gale2_ends fuel s n w stood seen =
      let c = env.config in
      let now = env.clock (suc (suc (suc n))) in
      let placed : is_placed s.state ≡ true = ap is_placed stood.1 in
      let is_amount : s.amount ≡ c.amount_gale2 = stood.0.stake_fits ∙ ap (stake c) stood.1 in
      let ends =
        stage_ends env signal results fuel s s placed_gale2 done_loss gale2 now c.amount_gale2
          (suc (suc (suc (suc n)))) (ladder2 c) (ladder3 c) w
          (stood.0.stage_fits ∙ ap stage_of stood.1) stood refl is_amount
          (λ lost other. absurd (other refl))
          (λ t leads.
            placed-Goes env signal results answers s t gale2 c.amount_gale2 n (ladder2 c) w placed
              is_amount leads seen)
          (λ t w' lost stood' trig seen'.
            drive_ended env signal fuel (EndsIn env signal results done_loss (ladder3 c)) t w'
              (stood'.0.stage_fits ∙ ap stage_of stood'.1) (stood'.1, stood'.2, seen'.1)) in
      rw (same_branches (is_loss (results gale2)) (ladder3 c)) at ends

  gale1_ends :
      (fuel : ℕ) (s : SignalState) (n : ℕ) (w : World env.broker.St)
      → Stood env signal results placed_gale1 (ladder1 env.config) s
      → Seen env signal n (ladder1 env.config) w
      → (is_loss (results gale1) ≡ true
          → env.clock (suc (suc (suc n))) ≤ s.trigger_unix + seconds 300 + tolerance)
      → Post
          (EndsIn env signal results
            (ended (results gale1) (ended (results gale2) done_loss))
            (if is_loss (results gale1) then ladder3 env.config else ladder2 env.config))
          (IsInsertRefusal signal)
          (drive_cascade env signal (suc (suc (suc fuel))) s w)
  gale1_ends fuel s n w stood seen in_time =
      let c = env.config in
      let now = env.clock (suc (suc (suc n))) in
      let placed : is_placed s.state ≡ true = ap is_placed stood.1 in
      let is_amount : s.amount ≡ c.amount_gale1 = stood.0.stake_fits ∙ ap (stake c) stood.1 in
      stage_ends env signal results (suc fuel) s s placed_gale1 (ended (results gale2) done_loss)
        gale1 now c.amount_gale1 (suc (suc (suc (suc n)))) (ladder1 c) (ladder3 c) w
        (stood.0.stage_fits ∙ ap stage_of stood.1) stood refl is_amount (λ lost other. in_time lost)
        (λ t leads.
          placed-Goes env signal results answers s t gale1 c.amount_gale1 n (ladder1 c) w placed
            is_amount leads seen)
        (λ t w' lost stood' trig seen'. gale2_ends fuel t (suc (suc (suc (suc n)))) w' stood' seen')

  first_ends :
      (w : World env.broker.St)
      → orders w.trace ≡ []
      → env.clock (suc w.ticks) ≤ signal.trigger_unix_initial + tolerance
      → (is_loss (results initial) ≡ true
          → env.clock (suc (suc (suc (suc (suc w.ticks)))))
            ≤ signal.trigger_unix_initial + seconds 300 + tolerance)
      → (is_loss (results initial) ≡ true
          → is_loss (results gale1) ≡ true
          → env.clock (suc (suc (suc (suc (suc (suc (suc (suc (suc w.ticks)))))))))
            ≤ signal.trigger_unix_initial + seconds 600 + tolerance)
      → Post
          (EndsIn env signal results (verdict results) (staked results env.config))
          (IsInsertRefusal signal)
          (drive_cascade env signal 4 (from_signal signal env.config) w)
  unfolding from_signal total
  first_ends w none_yet fires in_time1 in_time2 =
      let c = env.config in
      let k = suc (suc (suc (suc (suc w.ticks)))) in
      let (p, taken, h, is_st, trig, pnl) = fire_places signal c (env.clock (suc w.ticks)) fires in
      let is_amount : p.amount ≡ c.amount_initial = h.stake_fits ∙ ap (stake c) is_st in
      let placed : is_placed p.state ≡ true = ap is_placed is_st in
      stage_ends env signal results 2 (from_signal signal c) p placed_initial
        (ended (results gale1) (ended (results gale2) done_loss)) initial (env.clock k)
        c.amount_initial (suc k) [] (if is_loss (results gale1) then ladder3 c else ladder2 c) w
        refl (h, is_st, pnl) refl is_amount (λ lost other. rw trig (in_time1 lost))
        (λ t leads.
          fired-Goes env signal results answers (from_signal signal c) p t c.amount_initial w refl
            taken placed is_amount leads none_yet)
        (λ t w' lost stood' trig' seen'. gale1_ends 0 t (suc k) w' stood' seen' (λ lost2.
          omega (arith, in_time2 lost lost2, trig, trig' (gale1_next t stood'.0 stood'.1))))

-- The broker of a dry run answers with the results that its outcome provider has for the stages.
pub dry_run-Answers :
    (env : Env) (signal : Signal) (uuid8 : ℕ → String) (results : Stage → StageResult)
    → Answers
        (record env { broker = dry_run_broker uuid8 (λ _ stage. reported (results stage)) })
        signal
        results
unfolding dry_run_broker
dry_run-Answers env signal uuid8 results stage amount b =
    let provider : Signal → Stage → Waited = λ _ stage'. reported (results stage') in
    (
      trade_id_for uuid8 provider signal stage b.uuids,
      (dry_wait-dry_place uuid8 provider signal stage amount 0 "" b).0,
      λ limit.
          ap (stage_result_of env signal)
            (dry_wait-dry_place uuid8 provider signal stage amount limit "" b).1,
    )

-- Where the broker accepts every order and its wait comes to the results given for the stages, where
-- the fire reads the clock at most the tolerance after the trigger, and where a loss that leads to
-- another stage is known at most the tolerance after five minutes from the trigger of the stage
-- lost, the cascade returns in the status that the results make: done_win at the first stage won,
-- error at the first that fails, done_loss after three losses. It has placed the stages up to there
-- at their stakes, having placed none before, and its profit is the sum of theirs. Only a refused
-- INSERT of a stage raises an exception, and then the key is in the table already or the row of the
-- signal is not.
pub results_decide :
    (env : Env) (signal : Signal) (results : Stage → StageResult) (w : World env.broker.St)
    → Answers env signal results
    → orders w.trace ≡ []
    → env.clock (w.ticks + 1)
      ≤ signal.trigger_unix_initial + env.config.trigger_skew_tolerance_seconds
    → (is_loss (results initial) ≡ true
        → env.clock (w.ticks + 5)
          ≤ signal.trigger_unix_initial + seconds 300 + env.config.trigger_skew_tolerance_seconds)
    → (is_loss (results initial) ≡ true
        → is_loss (results gale1) ≡ true
        → env.clock (w.ticks + 9)
          ≤ signal.trigger_unix_initial + seconds 600 + env.config.trigger_skew_tolerance_seconds)
    → Post
        (EndsIn env signal results (verdict results) (staked results env.config))
        (IsInsertRefusal signal)
        (drive_cascade env signal 4 (from_signal signal env.config) w)
results_decide env signal results w answers none_yet fires in_time1 in_time2 =
    first_ends env signal results answers w none_yet (ground (arith, fires))
      (λ lost. ground (arith, in_time1 lost)) (λ lost lost2. ground (arith, in_time2 lost lost2))

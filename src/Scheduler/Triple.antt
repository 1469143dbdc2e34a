-- ===== src/Scheduler/Triple.antt =====
-- Postconditions of the coroutines: what holds on a return, what holds when an exception leaves them,
-- and that no loop runs out of fuel.
use telegram_olymptrade_sign.Scheduler.World.{
  World, Exec, Outcome, returned, raised, unfinished, Exception, continue, ◌>>=◌,
}

abbrev pub Post :
    {B A : Type 0}
    → (A → World B → Type 0)
    → (Exception → World B → Type 0)
    → Outcome A × World B
    → Type 0
Post Q E (returned a, w) = Q a w
Post Q E (raised e, w) = E e w
Post Q E (unfinished, w) = ⊥

module _ {B A C : Type 0} (E : Exception → World B → Type 0) where
  Post-continue :
      (P : A → World B → Type 0) (Q : C → World B → Type 0) (r : Outcome A) (f : A → Exec B C)
      (w : World B)
      → Post P E (r, w)
      → ((a : A) → P a w → Post Q E (f a w))
      → Post Q E (continue r f w)
  Post-continue P Q (returned a) f w p k = k a p
  Post-continue P Q (raised e) f w p k = p
  Post-continue P Q unfinished f w p k = absurd p

  -- The rule of `do`.
  pub Post-bind :
      (P : A → World B → Type 0) (Q : C → World B → Type 0) (m : Exec B A) (f : A → Exec B C)
      (w : World B)
      → Post P E (m w)
      → ((a : A) (w' : World B) → P a w' → Post Q E (f a w'))
      → Post Q E ((m >>= f) w)
  Post-bind P Q m f w p k = let (r, w') = m w in Post-continue P Q r f w' p (λ a. k a w')

module _ {B A : Type 0} (E : Exception → World B → Type 0) where
  -- Two postconditions of one outcome.
  pub Post-and :
      (P Q : A → World B → Type 0) (E' : Exception → World B → Type 0) (r : Outcome A × World B)
      → Post P E r
      → Post Q E' r
      → Post (λ a w. P a w × Q a w) E r
  Post-and P Q E' (returned a, w) p q = (p, q)
  Post-and P Q E' (raised e, w) p q = p
  Post-and P Q E' (unfinished, w) p q = p

  -- Weakening of the postcondition.
  pub Post-weaken :
      (P Q : A → World B → Type 0) (r : Outcome A × World B)
      → Post P E r
      → ((a : A) (w : World B) → P a w → Q a w)
      → Post Q E r
  Post-weaken P Q (returned a, w) p k = k a w p
  Post-weaken P Q (raised e, w) p k = p
  Post-weaken P Q (unfinished, w) p k = absurd p

-- ===== src/Pipeline/Waiting.antt =====
-- What an event leaves to put, and the order of the signals that wait.
use mathlib.Core.List.{Perm, append_assoc, perm_middle, perm_append_singleton}
use mathlib.Core.List.Perm
use telegram_olymptrade_sign.Prelude.{
  ◌+◌, ◌≡◌, ◌≢◌, ◌⊎◌, refl, ap, ◌∙◌, none, List, [], ◌∷◌, ◌++◌, arith, length, Option-cases, inl,
  inr,
}
use telegram_olymptrade_sign.Config.{Time}
use telegram_olymptrade_sign.Domain.Signal.{Signal}
use telegram_olymptrade_sign.Store.Integrity.{HasSignal}
use telegram_olymptrade_sign.Telegram.Listener.{
  Message, Intake, Reading, skipped, failed, out_of_window, signal, resolver_error,
  value_error_raised, persist, apply_reading,
}
use telegram_olymptrade_sign.Store.Statements.{get_signal}
use telegram_olymptrade_sign.Telegram.Intakes.{
  persist-new, persist-known, new_row-HasSignal, found-HasSignal,
}

pub put_perm :
    (xs before after : List Signal) (x : Signal)
    → Perm (xs ++ (before ++ x ∷ after)) ((xs ++ (x ∷ [])) ++ (before ++ after))
put_perm xs before after x =
    rw (append_assoc xs (x ∷ []) (before ++ after)) (Perm.append_left xs (perm_middle before after))

pub last_perm :
    (xs ys zs : List Signal) (x : Signal)
    → Perm (x ∷ (xs ++ (ys ++ zs))) (xs ++ (ys ++ (zs ++ (x ∷ []))))
last_perm xs ys zs x =
    rw (← append_assoc ys zs (x ∷ []), ← append_assoc xs (ys ++ zs) (x ∷ []))
      (Perm.symm (perm_append_singleton x (xs ++ (ys ++ zs))))

pub length-snoc : (xs : List Signal) (x : Signal) → length (xs ++ (x ∷ [])) ≡ length xs + 1
length-snoc [] x = refl
length-snoc (y ∷ xs) x = omega (arith, length-snoc xs x)

pub middle≢nil : (xs ys : List Signal) (x : Signal) → xs ++ x ∷ ys ≢ []
middle≢nil [] ys x e = cc
middle≢nil (y ∷ xs) ys x e = cc

-- What an event leaves to put: nothing, or a signal that had no row.
abbrev pub Gives : Intake → Intake → Type 0
Gives i j =
    (j.queue ≡ [])
    ⊎ ((x : Signal) × (j.queue ≡ x ∷ [])
        × (get_signal x.signal_id i.db ≡ none)
        × HasSignal j.db x.signal_id)

persist-Gives : (x : Signal) (i : Intake) → i.queue ≡ [] → Gives i (persist x i)
persist-Gives x i empty = elim (Option-cases (get_signal x.signal_id i.db)) [
  | inl new ↦ inr (
    x,
    ap (λ j. j.queue) (persist-new x i new) ∙ ap (λ q. q ++ (x ∷ [])) empty,
    new,
    new_row-HasSignal x i new,
  )
  | inr (row, e) ↦
      inl (ap (λ j. j.queue) (persist-known x i (found-HasSignal x.signal_id i.db row e)) ∙ empty)
]

pub apply_reading-Gives :
    (event : Message) (received : Time) (r : Reading) (i : Intake)
    → i.queue ≡ []
    → Gives i (apply_reading event received r i)
unfolding apply_reading
apply_reading-Gives event received (signal x) i empty = persist-Gives x i empty
apply_reading-Gives event received skipped i empty = inl empty
apply_reading-Gives event received (failed reason text) i empty = inl empty
apply_reading-Gives event received (out_of_window hhmm t) i empty = inl empty
apply_reading-Gives event received resolver_error i empty = inl empty
apply_reading-Gives event received value_error_raised i empty = inl empty

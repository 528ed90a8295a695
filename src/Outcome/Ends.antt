-- ===== src/Outcome/Ends.antt =====
-- Rules for `Ends`.
use libsdlog.Prelude.{◌≡◌, refl}
use libsdlog.Outcome.{
  Outcome, ok, fail, fault, out_of_fuel, Status, Cmd, pure, throw, and_then, then_clean, Ends,
}

module _ {S A : Type 0} where
  pub Ends-and_then :
      {B : Type 0} (Q : A → S → Type 0) (E : Status → S → Type 0) (R : B → S → Type 0)
      (F : Status → S → Type 0) (r : Outcome A × S) (k : A → Cmd S B)
      → Ends Q E r
      → ((a : A) (s : S) → Q a s → Ends R F (k a s))
      → ((e : Status) (s : S) → E e s → F e s)
      → Ends R F (and_then r k)
  Ends-and_then Q E R F (ok a, s) k h next err = next a s h
  Ends-and_then Q E R F (fail e, s) k h next err = err e s h
  Ends-and_then Q E R F (fault, s) k h next err = absurd h
  Ends-and_then Q E R F (out_of_fuel, s) k h next err = absurd h

  pub Ends-mono :
      (Q Q' : A → S → Type 0) (E E' : Status → S → Type 0) (r : Outcome A × S)
      → Ends Q E r
      → ((a : A) (s : S) → Q a s → Q' a s)
      → ((e : Status) (s : S) → E e s → E' e s)
      → Ends Q' E' r
  Ends-mono Q Q' E E' (ok a, s) h f g = f a s h
  Ends-mono Q Q' E E' (fail e, s) h f g = g e s h
  Ends-mono Q Q' E E' (fault, s) h f g = h
  Ends-mono Q Q' E E' (out_of_fuel, s) h f g = h

  -- Two facts on the same call.
  pub Ends-both :
      (Q Q' : A → S → Type 0) (E E' : Status → S → Type 0) (r : Outcome A × S)
      → Ends Q E r
      → Ends Q' E' r
      → Ends (λ a s. Q a s × Q' a s) (λ e s. E e s × E' e s) r
  Ends-both Q Q' E E' (ok a, s) h h' = (h, h')
  Ends-both Q Q' E E' (fail e, s) h h' = (h, h')
  Ends-both Q Q' E E' (fault, s) h h' = h
  Ends-both Q Q' E E' (out_of_fuel, s) h h' = h

  -- The cleanup behind a label, where it cannot fail.
  pub Ends-then_clean :
      (Q R : A → S → Type 0) (E F : Status → S → Type 0) (r : Outcome A × S)
      (clean : Cmd S (Unit {0}))
      → Ends Q E r
      → ((a : A) (s : S) → Q a s → (s' : S) × (clean s ≡ (ok tt, s')) × R a s')
      → ((e : Status) (s : S) → E e s → (s' : S) × (clean s ≡ (ok tt, s')) × F e s')
      → Ends R F (then_clean r clean)
  Ends-then_clean Q R E F (ok a, s) clean h f g = let (s', c, p) = f a s h in rw c p
  Ends-then_clean Q R E F (fail e, s) clean h f g = let (s', c, p) = g e s h in rw c p
  Ends-then_clean Q R E F (fault, s) clean h f g = h
  Ends-then_clean Q R E F (out_of_fuel, s) clean h f g = h

module _ {S A : Type 0} where
  -- The same where the cleanup is a call that always succeeds.
  pub Ends-then_clean_total :
      (Q R : A → S → Type 0) (E F : Status → S → Type 0) (r : Outcome A × S)
      (clean : Cmd S (Unit {0}))
      → Ends Q E r
      → ((a : A) (s : S) → Q a s → Ends (λ _ s'. R a s') (λ _ _. ⊥) (clean s))
      → ((e : Status) (s : S) → E e s → Ends (λ _ s'. F e s') (λ _ _. ⊥) (clean s))
      → Ends R F (then_clean r clean)
  Ends-then_clean_total Q R E F (ok a, s) clean h f g =
      Ends-and_then (λ _ s'. R a s') (λ _ _. ⊥) R F (clean s) (λ _. pure a) (f a s h) (λ _ s' k. k)
        (λ _ s' k. absurd k)
  Ends-then_clean_total Q R E F (fail e, s) clean h f g =
      Ends-and_then (λ _ s'. F e s') (λ _ _. ⊥) R F (clean s) (λ _. throw e) (g e s h) (λ _ s' k. k)
        (λ _ s' k. absurd k)
  Ends-then_clean_total Q R E F (fault, s) clean h f g = h
  Ends-then_clean_total Q R E F (out_of_fuel, s) clean h f g = h

module _ {S : Type 0} where
  -- Without an error the call succeeds.
  pub Ends-ok :
      (Q : Unit {0} → S → Type 0) (E : Status → S → Type 0) (r : Outcome (Unit {0}) × S)
      → Ends Q E r
      → ((e : Status) (s : S) → ¬ E e s)
      → (s : S) × (r ≡ (ok tt, s)) × Q tt s
  Ends-ok Q E (ok a, s) h never = (s, refl, h)
  Ends-ok Q E (fail e, s) h never = absurd (never e s h)
  Ends-ok Q E (fault, s) h never = absurd h
  Ends-ok Q E (out_of_fuel, s) h never = absurd h

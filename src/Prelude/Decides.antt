-- ===== src/Prelude/Decides.antt =====
-- Methods that check their argument first: a chain of guards decides a condition, and the state
-- changes only where the condition holds.
use mathlib.Core.Path.{◌≡◌, refl}
use mathlib.Core.Logic.{◌⊎◌, inr, ◌≢◌}
use mathlib.Core.Bool.{Bool, true, false}
use mathlib.Core.Option.{Option, none, some}
use compukter_vm.Prelude.Fallible.{Result, ok, err, Method, ◌>>=◌, ◌>>◌, guard, lift, ok_or}

module _ {S E A : Type 0} where
  -- With `P` the method returns `a` and goes to `s'`; without it, it fails and leaves `s`.
  abbrev pub Decides : Type 0 → S → A → S → Result E A × S → Type 0
  Decides P s a s' out = (P × (out ≡ (ok a, s'))) ⊎ ((e : E) × (¬ P) × (out ≡ (err e, s)))

module _ {S E A : Type 0} (P : Type 0) (s : S) (a : A) (s' : S) where
  pub guard-Decides :
      (b : Bool) (e : E) (m : Method S E A)
      → (P → b ≡ true)
      → (b ≡ true → Decides P s a s' (m s))
      → Decides P s a s' ((guard b e >> m) s)
  guard-Decides true e m need rest = rest refl
  guard-Decides false e m need rest = inr (e, (λ p. cc (need p)), refl)

  pub lift-Decides :
      {B : Type 0} (o : Option B) (e : E) (f : B → Method S E A)
      → (P → o ≢ none)
      → ((b : B) → o ≡ some b → Decides P s a s' (f b s))
      → Decides P s a s' ((lift (ok_or o e) >>= f) s)
  lift-Decides (some b) e f need rest = rest b refl
  lift-Decides none e f need rest = inr (e, (λ p. need p refl), refl)

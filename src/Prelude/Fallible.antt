-- ===== src/Prelude/Fallible.antt =====
-- Results of fallible code. `panic` is Rust's panic (an index out of bounds, an overflowing `+`
-- in a checked build, a failed `expect`), kept apart from an error that the code returns.
use mathlib.Core.Path.{◌≡◌, refl}
use mathlib.Core.Option.{Option, none, some}
use mathlib.Core.Bool.{Bool, true, false}

pub data Result {ℓ κ} (E : Type ℓ) (A : Type κ) : Type (ℓ ⊔ κ) where
  ok : A → Result E A
  err : E → Result E A
  panic : Result E A

module _ {ℓ κ} {E : Type ℓ} {A : Type κ} where
  -- `option.ok_or(e)?`
  abbrev pub ok_or : Option A → E → Result E A
  ok_or none e = err e
  ok_or (some a) e = ok a

  -- `slice[i]`, or `expect`
  abbrev pub expect : Option A → Result E A
  expect none = panic
  expect (some a) = ok a

-- `f(result?)`
abbrev pub and_then {ℓ κ μ} :
    {E : Type ℓ} {A : Type κ} {B : Type μ} → Result E A → (A → Result E B) → Result E B
and_then (ok a) f = f a
and_then (err e) f = err e
and_then panic f = panic

pub and_then-ok {ℓ κ μ} :
    {E : Type ℓ} {A : Type κ} {B : Type μ} (r : Result E A) (f : A → Result E B) (b : B)
    → and_then r f ≡ ok b
    → (a : A) × (r ≡ ok a) × (f a ≡ ok b)
and_then-ok (ok a) f b h = (a, refl, h)
and_then-ok (err e) f b h = absurd (cc h)
and_then-ok panic f b h = absurd (cc h)

-- A method on `&mut self`: what was written before an error stays written.
abbrev pub Method : Type 0 → Type 0 → Type 0 → Type 0
Method S E A = S → Result E A × S

module _ {S E A B : Type 0} where
  abbrev pub continue : Result E A → (A → Method S E B) → Method S E B
  continue (ok a) f s = f a s
  continue (err e) f s = (err e, s)
  continue panic f s = (panic, s)

  infixl 5 ◌>>=◌ ◌>>◌
  abbrev pub ◌>>=◌ : Method S E A → (A → Method S E B) → Method S E B
  ◌>>=◌ m f s = let (r, s') = m s in continue r f s'

  abbrev pub ◌>>◌ : Method S E A → Method S E B → Method S E B
  m >> n = m >>= λ _. n

module _ {S E A : Type 0} where
  abbrev pub pure : A → Method S E A
  pure a s = (ok a, s)

  abbrev pub raise : E → Method S E A
  raise e s = (err e, s)

  abbrev pub lift : Result E A → Method S E A
  lift r s = (r, s)

  abbrev pub gets : (S → A) → Method S E A
  gets f s = (ok (f s), s)

module _ {S E : Type 0} where
  abbrev pub modify : (S → S) → Method S E (Unit {0})
  modify f s = (ok tt, f s)

  abbrev pub guard : Bool → E → Method S E (Unit {0})
  guard true e s = (ok tt, s)
  guard false e s = (err e, s)

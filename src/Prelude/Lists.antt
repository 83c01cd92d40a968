-- ===== src/Prelude/Lists.antt =====
-- Lists measured and indexed by native numbers, under the library's names.
use Prim.Native.Nat.{ℕ, zero, suc, ◌+◌, ◌<◌, ◌≤◌}
use mathlib.Core.Path.{◌≡◌, refl, ap, sym}
use mathlib.Core.Logic.{◌≢◌}
use mathlib.Core.Bool.{Bool, true, false}
use mathlib.Core.List.{List, [], ◌∷◌, ◌++◌}
use mathlib.Core.Option
use mathlib.Core.Option.{Option, none, some}
use native.Mathlib.Omega.{arith}
use compukter_vm.Prelude.Tests.{◌==◌, if◌then◌else◌}

abbrev pub weight : Bool → ℕ
weight b = if b then 1 else 0

module _ {ℓ} {A : Type ℓ} where
  abbrev pub length : List A → ℕ
  length [] = 0
  length (x ∷ xs) = suc (length xs)

  abbrev pub get_elem? : List A → ℕ → Option A
  get_elem? [] i = none
  get_elem? (x ∷ xs) zero = some x
  get_elem? (x ∷ xs) (suc i) = get_elem? xs i

  abbrev pub get_or : List A → ℕ → A → A
  get_or [] i d = d
  get_or (x ∷ xs) zero d = x
  get_or (x ∷ xs) (suc i) d = get_or xs i d

  -- A write out of bounds changes nothing; the models write only where a read succeeded.
  abbrev pub set : List A → ℕ → A → List A
  set [] i v = []
  set (x ∷ xs) zero v = v ∷ xs
  set (x ∷ xs) (suc i) v = x ∷ set xs i v

  abbrev pub replicate : ℕ → A → List A
  replicate zero a = []
  replicate (suc n) a = a ∷ replicate n a

  -- `iter().position(p)`
  abbrev pub position : (A → Bool) → List A → Option ℕ
  position p [] = none
  position p (x ∷ xs) = if p x then some 0 else Option.map suc (position p xs)

  -- `iter().filter(p).count()`
  abbrev pub count : (A → Bool) → List A → ℕ
  count p [] = 0
  count p (x ∷ xs) = if p x then suc (count p xs) else count p xs

  abbrev pub any : (A → Bool) → List A → Bool
  any p [] = false
  any p (x ∷ xs) = if p x then true else any p xs

  abbrev pub All {κ} : (A → Type κ) → List A → Type κ
  All P [] = Unit
  All P (x ∷ xs) = P x × All P xs

  pub length-append : (xs ys : List A) → length (xs ++ ys) ≡ length xs + length ys
  length-append [] ys = omega arith
  length-append (x ∷ xs) ys = omega (arith, length-append xs ys)

  pub length-set : (xs : List A) (i : ℕ) (v : A) → length (set xs i v) ≡ length xs
  length-set [] i v = refl
  length-set (x ∷ xs) zero v = refl
  length-set (x ∷ xs) (suc i) v = ap suc (length-set xs i v)

  pub length-replicate : (n : ℕ) (a : A) → length (replicate n a) ≡ n
  length-replicate zero a = refl
  length-replicate (suc n) a = ap suc (length-replicate n a)

  pub get_elem?-lt : (xs : List A) (i : ℕ) {a : A} → get_elem? xs i ≡ some a → i < length xs
  get_elem?-lt [] i e = ground arith
  get_elem?-lt (x ∷ xs) zero e = omega arith
  get_elem?-lt (x ∷ xs) (suc i) e = omega (arith, get_elem?-lt xs i e)

  pub lt-get_elem? : (xs : List A) (i : ℕ) → i < length xs → (a : A) × (get_elem? xs i ≡ some a)
  lt-get_elem? [] i h = absurd (omega arith)
  lt-get_elem? (x ∷ xs) zero h = (x, refl)
  lt-get_elem? (x ∷ xs) (suc i) h = lt-get_elem? xs i (omega arith)

  pub get_elem?-set_self :
      (xs : List A) (i : ℕ) (v : A) → i < length xs → get_elem? (set xs i v) i ≡ some v
  get_elem?-set_self [] i v h = absurd (omega arith)
  get_elem?-set_self (x ∷ xs) zero v h = refl
  get_elem?-set_self (x ∷ xs) (suc i) v h = get_elem?-set_self xs i v (omega arith)

  pub get_elem?-set_ne :
      (xs : List A) (i j : ℕ) (v : A) → i ≢ j → get_elem? (set xs i v) j ≡ get_elem? xs j
  get_elem?-set_ne [] i j v h = refl
  get_elem?-set_ne (x ∷ xs) zero zero v h = absurd (h refl)
  get_elem?-set_ne (x ∷ xs) zero (suc j) v h = refl
  get_elem?-set_ne (x ∷ xs) (suc i) zero v h = refl
  get_elem?-set_ne (x ∷ xs) (suc i) (suc j) v h = get_elem?-set_ne xs i j v (λ e. h (ap suc e))

  pub get_elem?-set :
      (xs : List A) (i j : ℕ) (v : A)
      → i < length xs
      → get_elem? (set xs i v) j ≡ (if i == j then some v else get_elem? xs j)
  get_elem?-set [] i j v h = absurd (omega arith)
  get_elem?-set (x ∷ xs) zero zero v h = refl
  get_elem?-set (x ∷ xs) zero (suc j) v h = ground arith
  get_elem?-set (x ∷ xs) (suc i) zero v h = ground arith
  get_elem?-set (x ∷ xs) (suc i) (suc j) v h = ground (arith, get_elem?-set xs i j v)

  pub get_or-set_self :
      (xs : List A) (i : ℕ) (v d : A) → i < length xs → get_or (set xs i v) i d ≡ v
  get_or-set_self [] i v d h = absurd (omega arith)
  get_or-set_self (x ∷ xs) zero v d h = refl
  get_or-set_self (x ∷ xs) (suc i) v d h = get_or-set_self xs i v d (omega arith)

  pub get_or-set_ne :
      (xs : List A) (i j : ℕ) (v d : A) → i ≢ j → get_or (set xs i v) j d ≡ get_or xs j d
  get_or-set_ne [] i j v d h = refl
  get_or-set_ne (x ∷ xs) zero zero v d h = absurd (h refl)
  get_or-set_ne (x ∷ xs) zero (suc j) v d h = refl
  get_or-set_ne (x ∷ xs) (suc i) zero v d h = refl
  get_or-set_ne (x ∷ xs) (suc i) (suc j) v d h = get_or-set_ne xs i j v d (λ e. h (ap suc e))

  pub get_or-eq :
      (xs : List A) (i : ℕ) (d : A) → i < length xs → get_elem? xs i ≡ some (get_or xs i d)
  get_or-eq [] i d h = absurd (omega arith)
  get_or-eq (x ∷ xs) zero d h = refl
  get_or-eq (x ∷ xs) (suc i) d h = get_or-eq xs i d (omega arith)

  -- What `position` finds passes the test.
  pub position-some :
      (p : A → Bool) (xs : List A) (i : ℕ)
      → position p xs ≡ some i
      → (a : A) × (get_elem? xs i ≡ some a) × (p a ≡ true)
  position-some p [] i e = absurd (ground arith)
  position-some p (x ∷ xs) zero e = (x, refl, ground arith)
  position-some p (x ∷ xs) (suc i) e = position-some p xs i (ground arith)

  pub position-none :
      (p : A → Bool) (xs : List A) (i : ℕ) {a : A}
      → position p xs ≡ none
      → get_elem? xs i ≡ some a
      → p a ≡ false
  position-none p [] i e g = ground arith
  position-none p (x ∷ xs) zero e g = ground arith
  position-none p (x ∷ xs) (suc i) e g = position-none p xs i (ground arith) g

  pub count-le-length : (p : A → Bool) (xs : List A) → count p xs ≤ length xs
  count-le-length p [] = omega arith
  count-le-length p (x ∷ xs) = ground (arith, count-le-length p xs)

  pub count-set :
      (p : A → Bool) (xs : List A) (i : ℕ) (v : A) {a : A}
      → get_elem? xs i ≡ some a
      → count p (set xs i v) + weight (p a) ≡ count p xs + weight (p v)
  count-set p [] i v e = ground arith
  count-set p (x ∷ xs) zero v e = ground arith
  count-set p (x ∷ xs) (suc i) v e = ground (arith, count-set p xs i v e)

-- Behind the last element stands the one that was appended.
pub get_elem?-snoc {ℓ} :
    {A : Type ℓ} (xs : List A) (y : A) (i : ℕ)
    → get_elem? (xs ++ y ∷ []) i ≡ (if i == length xs then some y else get_elem? xs i)
get_elem?-snoc [] y zero = refl
get_elem?-snoc [] y (suc i) = ground arith
get_elem?-snoc (x ∷ xs) y zero = ground arith
get_elem?-snoc (x ∷ xs) y (suc i) = ground (arith, get_elem?-snoc xs y i)

abbrev pub NotIn : ℕ → List ℕ → Type 0
NotIn a = All (λ x. x ≢ a)

abbrev pub Nodup : List ℕ → Type 0
Nodup [] = Unit
Nodup (x ∷ xs) = NotIn x xs × Nodup xs

pub All-append {ℓ κ} :
    {A : Type ℓ} (P : A → Type κ) (xs ys : List A) → All P xs → All P ys → All P (xs ++ ys)
All-append P [] ys h k = k
All-append P (x ∷ xs) ys h k = (h.0, All-append P xs ys h.1 k)

pub All-map {ℓ κ κ'} :
    {A : Type ℓ} (P : A → Type κ) (Q : A → Type κ') (xs : List A)
    → ((a : A) → P a → Q a)
    → All P xs
    → All Q xs
All-map P Q [] f h = tt
All-map P Q (x ∷ xs) f h = (f x h.0, All-map P Q xs f h.1)

pub Nodup-snoc : (xs : List ℕ) (a : ℕ) → Nodup xs → NotIn a xs → Nodup (xs ++ a ∷ [])
Nodup-snoc [] a h n = (tt, tt)
Nodup-snoc (x ∷ xs) a h n =
    (All-append (λ y. y ≢ x) xs (a ∷ []) h.0 ((λ e. n.0 (sym e)), tt), Nodup-snoc xs a h.1 n.1)

-- ===== src/Prelude/Ring.antt =====
-- Ring buffers: `size` cells of a list from `start` on, of which `n` are in use from `head` on, in
-- the way that the scheduler's ready queue and the channels' value buffers lay them out.
use Prim.Native.Nat.{ℕ, zero, suc, ◌+◌, ◌-◌, ◌%◌, ◌≤◌, ◌<◌}
use mathlib.Core.Path.{◌≡◌, refl, ap, ap₂, ◌∙◌, sym, subst}
use mathlib.Core.Logic.{◌≢◌, ◌⊎◌}
use mathlib.Core.List.{List, [], ◌∷◌, ◌++◌}
use native.Mathlib.Omega.{arith}
use native.Mathlib.Nat.{mod-eq_of_lt, mod-eq-sub-mod, mod-add-mod}
use native.Mathlib.Numerals.{add-one}
use compukter_vm.Prelude.Tests.{ltb, if◌then◌else◌}
use compukter_vm.Prelude.Lists.{length, get_or, set, get_or-set_self, get_or-set_ne}

-- The cell of the `k`-th entry, counted from the head.
abbrev pub cell : ℕ → ℕ → ℕ → ℕ
cell size head k = (head + k) % size

pub cell_below :
    (size head k : ℕ)
    → head < size
    → k ≤ size
    → cell size head k ≡ (if ltb (head + k) size then head + k else head + k - size)
cell_below size head k h l = grind (arith, mod-eq_of_lt, mod-eq-sub-mod)

pub cell-lt : (size head k : ℕ) → 0 < size → cell size head k < size
cell-lt size head k h = omega arith

pub cell-zero : (size head : ℕ) → head < size → cell size head 0 ≡ head
cell-zero size head h = grind (arith, mod-eq_of_lt)

pub cell-suc :
    (size head k : ℕ)
    → head < size
    → k < size
    → cell size (cell size head 1) k ≡ cell size head (suc k)
cell-suc size head k h l = mod-add-mod (head + 1) size k ∙ ap (λ (t : ℕ). t % size) (omega arith)

pub cell-ne :
    (size head j k : ℕ) → head < size → j < k → k < size → cell size head j ≢ cell size head k
cell-ne size head j k h l m e =
    ground (arith, cell_below size head j h (omega arith), cell_below size head k h (omega arith))

module _ {ℓ} {A : Type ℓ} (d : A) where
  -- The entries in use, oldest first.
  unfoldable pub ring : List A → ℕ → ℕ → ℕ → ℕ → List A
  ring xs start size head zero = []
  ring xs start size head (suc n) =
      get_or xs (start + cell size head 0) d ∷ ring xs start size (cell size head 1) n

  pub length-ring : (xs : List A) (start size head n : ℕ) → length (ring xs start size head n) ≡ n
  unfolding ring
  length-ring xs start size head zero = refl
  length-ring xs start size head (suc n) = ap suc (length-ring xs start size (cell size head 1) n)

  -- A write to a cell that is not in use is not seen.
  pub ring-set_ne :
      (xs : List A) (start size head n p : ℕ) (v : A)
      → head < size
      → n ≤ size
      → ((k : ℕ) → k < n → start + cell size head k ≢ p)
      → ring (set xs p v) start size head n ≡ ring xs start size head n
  unfolding ring
  ring-set_ne xs start size head zero p v h l away = refl
  ring-set_ne xs start size head (suc n) p v h l away =
      ap₂ ◌∷◌
        (get_or-set_ne xs p (start + cell size head 0) v d (λ e. away 0 (omega arith) (sym e)))
        (ring-set_ne xs start size (cell size head 1) n p v (omega arith) (omega arith) λ k lt e.
          away (suc k) (omega arith)
            (ap (λ (t : ℕ). start + t) (sym (cell-suc size head k h (omega arith))) ∙ e))

  -- Nor is one outside the window.
  pub ring-set_outside :
      (xs : List A) (start size head n p : ℕ) (v : A)
      → head < size
      → n ≤ size
      → (p < start) ⊎ (start + size ≤ p)
      → ring (set xs p v) start size head n ≡ ring xs start size head n
  ring-set_outside xs start size head n p v h l out =
      ring-set_ne xs start size head n p v h l λ k lt e. absurd (omega (arith, cell-lt size head k))

  -- A write behind the last entry adds one at the end.
  pub ring-push :
      (xs : List A) (start size head n : ℕ) (v : A)
      → head < size
      → n < size
      → start + size ≤ length xs
      → ring (set xs (start + cell size head n) v) start size head (suc n)
        ≡ ring xs start size head n ++ v ∷ []
  unfolding ring
  ring-push xs start size head zero v h l fits =
      ap (λ x. x ∷ [])
        (get_or-set_self xs (start + cell size head 0) v d
          (omega (arith, cell-lt size head 0 (omega arith))))
  ring-push xs start size head (suc n) v h l fits =
      ap₂ ◌∷◌
        (get_or-set_ne xs (start + cell size head (suc n)) (start + cell size head 0) v d
          (λ e. cell-ne size head 0 (suc n) h (omega arith) l (omega arith)))
        (subst
          (λ (q : ℕ).
            ring (set xs (start + q) v) start size (cell size head 1) (suc n)
            ≡ ring xs start size (cell size head 1) n ++ v ∷ [])
          (cell-suc size head n h (omega arith))
          (ring-push xs start size (cell size head 1) n v (omega arith) (omega arith) fits))

  -- `ring-push` in the form that code has.
  pub ring-push_at :
      (xs : List A) (start size head n p : ℕ) (v : A)
      → p ≡ start + cell size head n
      → head < size
      → n < size
      → start + size ≤ length xs
      → ring (set xs p v) start size head (n + 1) ≡ ring xs start size head n ++ v ∷ []
  ring-push_at xs start size head n p v e h l fits =
      rw (e, add-one) (ring-push xs start size head n v h l fits)

  -- The oldest entry stands at the head, the others from the next cell on.
  pub ring-pop :
      (xs : List A) (start size head n : ℕ)
      → head < size
      → 0 < n
      → ring xs start size head n
        ≡ get_or xs (start + head) d ∷ ring xs start size ((head + 1) % size) (n - 1)
  unfolding ring
  ring-pop xs start size head zero h l = absurd (omega arith)
  ring-pop xs start size head (suc n) h l =
      ap₂ (λ (p m : ℕ). get_or xs p d ∷ ring xs start size (cell size head 1) m)
        (ap (λ (t : ℕ). start + t) (cell-zero size head h)) (omega arith)

  -- A write to the cell that was just read does not touch the entries behind it.
  pub ring-pop-set :
      (xs : List A) (start size head n p : ℕ) (v : A)
      → p ≡ start + head
      → head < size
      → 0 < n
      → n ≤ size
      → ring (set xs p v) start size ((head + 1) % size) (n - 1)
        ≡ ring xs start size ((head + 1) % size) (n - 1)
  ring-pop-set xs start size head n p v e h l m =
      ring-set_ne xs start size ((head + 1) % size) (n - 1) p v (cell-lt size head 1 (omega arith))
        (omega arith)
        λ k lt q.
          cell-ne size head 0 (suc k) h (omega arith) (omega arith)
            (omega (arith, cell-zero size head h, cell-suc size head k h (omega arith)))

-- ===== src/Execution/ArrayCopy/Slices.antt =====
-- src/execution/array_copy.rs: slices of a copy, put together from its chunks.
use compukter_vm.Prelude.{
  ℕ, zero, suc, ◌+◌, ◌-◌, ◌≤◌, min, ◌≡◌, refl, ap, subst, arith, List, [], ◌∷◌, ok, ◌==◌,
}
use compukter_vm.Execution.ArrayCopy.{Copying, C, copy_chunk, copy_chunks, advance, slices}

abbrev pub sum : List ℕ → ℕ
sum [] = 0
sum (x ∷ xs) = x + sum xs

-- `P k s`: in the state `s`, `k` of the `total` elements have been moved.
module _ (total : ℕ) (P : ℕ → Copying → Type 0) where
  -- A method that moves `n` elements and returns `a`.
  abbrev pub Moves : {A : Type 0} → C A → A → ℕ → ℕ → Copying → Type 0
  Moves method a n k s = (s' : Copying) × (method s ≡ (ok a, s')) × P (k + n) s'

  module _
      (step : (k count : ℕ) (s : Copying)
        → count ≤ 256
        → k + count ≤ total
        → P k s
        → Moves (copy_chunk count) tt count k s)
      (remaining : (k : ℕ) (s : Copying) → P k s → s.pending.remaining ≡ total - k) where
    copy_chunks-Moves :
        (fuel left k : ℕ) (s : Copying)
        → left ≤ fuel
        → k + left ≤ total
        → P k s
        → Moves (copy_chunks fuel left) tt left k s
    unfolding copy_chunks
    copy_chunks-Moves fuel zero k s enough fits p =
        (s, refl, subst (λ (i : ℕ). P i s) (omega arith) p)
    copy_chunks-Moves zero (suc left) k s enough fits p = absurd (omega arith)
    copy_chunks-Moves (suc fuel) (suc left) k s enough fits p =
        let c = min (suc left) 256 in
        let (s', e, q) = step k c s (omega arith) (omega arith) p in
        let (s'', e', r) =
          copy_chunks-Moves fuel (suc left - c) (k + c) s' (omega arith) (omega arith) q in
        (s'', rw (e, e') refl, subst (λ (i : ℕ). P i s'') (omega arith) r)

    -- A slice moves as many elements as remain or as its budget allows.
    pub advance-Moves :
        (budget k : ℕ) (s : Copying)
        → k ≤ total
        → P k s
        → Moves
            (advance budget)
            (min (total - k) budget, total - (k + min (total - k) budget) == 0)
            (min (total - k) budget)
            k
            s
    unfolding advance
    advance-Moves budget k s h p =
        let u = min (total - k) budget in
        let (s', e, q) = copy_chunks-Moves u u k s (omega arith) (omega arith) p in
        let x : min s.pending.remaining budget ≡ u =
          ap (λ (r : ℕ). min r budget) (remaining k s p) in
        (s', rw (x, e, remaining (k + u) s' q) refl, q)

    pub slices-Moves :
        (budgets : List ℕ) (k : ℕ) (s : Copying)
        → k ≤ total
        → P k s
        → Moves (slices budgets) (min (total - k) (sum budgets)) (min (total - k) (sum budgets)) k s
    unfolding slices
    slices-Moves [] k s h p =
        let e : min (total - k) 0 ≡ 0 = omega arith in
        rw e (s, refl, subst (λ (i : ℕ). P i s) (omega arith) p)
    slices-Moves (budget ∷ budgets) k s h p =
        let u = min (total - k) budget in
        let (s', e, q) = advance-Moves budget k s h p in
        let (s'', e', r) = slices-Moves budgets (k + u) s' (omega arith) q in
        let t : u + min (total - (k + u)) (sum budgets) ≡ min (total - k) (budget + sum budgets) =
          omega arith in
        (s'', rw (e, e', t) refl, subst (λ (i : ℕ). P i s'') (omega arith) r)

-- ===== src/Execution/ArrayCopy/Moves.antt =====
-- src/execution/heap.rs: moves of bytes in one memory, put together from moves of parts.
use compukter_vm.Prelude.{ℕ, ◌+◌, ◌-◌, ◌≤◌, ◌<◌, ◌≡◌, refl, sym, ap, ◌∙◌, ◌⊎◌, inl, inr, arith}
use compukter_vm.Execution.Heap.{Memory, copy_within}

-- `m'` is `m` after `n` bytes have been moved from `source` to `destination`, as if all were read
-- before the first was written.
abbrev pub Moved : Memory → Memory → ℕ → ℕ → ℕ → Type 0
Moved m m' source destination n =
    ((j : ℕ) → j < n → m' (destination + j) ≡ m (source + j))
    × ((a : ℕ) → (a < destination) ⊎ (destination + n ≤ a) → m' a ≡ m a)

pub Moved-nothing : (m : Memory) (source destination : ℕ) → Moved m m source destination 0
Moved-nothing m source destination = ((λ j h. absurd (omega arith)), λ a h. refl)

pub Moved-at :
    (m m' : Memory) {s s' d d' n n' : ℕ}
    → s ≡ s'
    → d ≡ d'
    → n ≡ n'
    → Moved m m' s d n
    → Moved m m' s' d' n'
Moved-at m m' es ed en done = rw (sym es, sym ed, sym en) done

copy_within-inside :
    (m : Memory) (source n destination j : ℕ)
    → j < n
    → copy_within m source n destination (destination + j) ≡ m (source + j)
unfolding copy_within
copy_within-inside m source n destination j h =
    let e : destination + j - destination + source ≡ source + j = omega arith in
    ground (arith, ap m e)

copy_within-outside :
    (m : Memory) (source n destination a : ℕ)
    → (a < destination) ⊎ (destination + n ≤ a)
    → copy_within m source n destination a ≡ m a
unfolding copy_within
copy_within-outside m source n destination a h = ground arith

pub copy_within-Moved :
    (m : Memory) (source n destination : ℕ)
    → Moved m (copy_within m source n destination) source destination n
copy_within-Moved m source n destination =
    (copy_within-inside m source n destination, copy_within-outside m source n destination)

lt-or-le : (a b : ℕ) → (a < b) ⊎ (b ≤ a)
lt-or-le a b = ground arith

module _ (m m' m'' : Memory) (source destination n c : ℕ) where
  -- The bytes behind those that have been moved.
  pub Moved-forward :
      (destination ≤ source) ⊎ (source + (n + c) ≤ destination)
      → Moved m m' source destination n
      → Moved m' m'' (source + n) (destination + n) c
      → Moved m m'' source destination (n + c)
  Moved-forward apart done more = (
    (λ j h. elim (lt-or-le j n) [
      | inl lt ↦ more.1 (destination + j) (inl (omega arith)) ∙ done.0 j lt
      | inr ge ↦
          ap m'' (omega arith)
          ∙ more.0 (j - n) (omega arith)
          ∙ ap m' (omega arith)
          ∙ done.1 (source + j) (ground arith)
    ]),
    λ a h. more.1 a (ground arith) ∙ done.1 a (ground arith),
  )

  -- The bytes in front of them.
  pub Moved-backward :
      source ≤ destination
      → Moved m m' (source + c) (destination + c) n
      → Moved m' m'' source destination c
      → Moved m m'' source destination (c + n)
  Moved-backward before done more = (
    (λ j h. elim (lt-or-le j c) [
      | inl lt ↦ more.0 j lt ∙ done.1 (source + j) (inl (omega arith))
      | inr ge ↦
          more.1 (destination + j) (inr (omega arith))
          ∙ ap m' (omega arith)
          ∙ done.0 (j - c) (omega arith)
          ∙ ap m (omega arith)
    ]),
    λ a h. more.1 a (ground arith) ∙ done.1 a (ground arith),
  )

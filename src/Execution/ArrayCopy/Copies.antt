-- ===== src/Execution/ArrayCopy/Copies.antt =====
-- src/execution/array_copy.rs: a copy from its start to its end.
use native.Mathlib.Nat.{add-mul, mul-le-mul_right}
use compukter_vm.Prelude.{
  ℕ, ◌+◌, ◌-◌, ◌*◌, ◌≤◌, ◌<◌, min, ◌≡◌, refl, sym, ap, subst, ◌∙◌, ◌≢◌, ◌⊎◌, inl, inr, arith, Bool,
  true, false, ◌&&◌, List, ok, ltb, ◌==◌, ==_iff, Bool-cases,
}
use compukter_vm.Prelude.Int.{pos}
use compukter_vm.Execution.Heap.{Memory, Heap, with_memory}
use compukter_vm.Execution.ArrayCopy.{PendingArrayCopy, Copying, new, copy_chunk, slices}
use compukter_vm.Execution.ArrayCopy.Moves.{Moved}
use compukter_vm.Execution.ArrayCopy.Chunks.{ArrayAt, address, Separate, range_fits}
use compukter_vm.Execution.ArrayCopy.Progress.{
  at, Progress, Progress-start, Progress-end, Apart, copy_chunk-Progress,
}
use compukter_vm.Execution.ArrayCopy.Slices.{sum, Moves, slices-Moves}
use compukter_vm.Execution.ArrayCopy.Accepting.{new-at}

module _ (h : Heap) (source destination source_start destination_start n width : ℕ)
    (source_length source_block source_size destination_length destination_block
      destination_size : ℕ)
    (A : ArrayAt h source source_length width source_block source_size)
    (B : ArrayAt h destination destination_length width destination_block destination_size)
    (disjoint : source ≢ destination
      → (source_block + source_size ≤ destination_block)
        ⊎ (destination_block + destination_size ≤ source_block)) where
  blocks-Separate :
      ((source ≡ destination) × (source_block ≡ destination_block))
      ⊎ ((source ≢ destination)
          × ((source_block + source_size ≤ destination_block)
              ⊎ (destination_block + destination_size ≤ source_block)))
  blocks-Separate = elim (Bool-cases (source == destination)) [
    | inl e ↦
        let q : source ≡ destination = (==_iff source destination).0 e in
        inl (q, cc (q, A.live, B.live))
    | inr e ↦ let q : source ≢ destination = ground (arith, e) in inr (q, disjoint q)
  ]

  module _ (x : source_start + n ≤ source_length)
      (y : destination_start + n ≤ destination_length) where
    direction-Apart :
        (backward : Bool)
        → (backward ≡ true
            → (source_block ≡ destination_block) × (source_start ≤ destination_start))
        → (backward ≡ false
            → ((source_block ≡ destination_block) × (destination_start ≤ source_start))
              ⊎ ((source_block + source_size ≤ destination_block)
                  ⊎ (destination_block + destination_size ≤ source_block)))
        → Apart source destination source_start destination_start n width h source_length
            source_block source_size destination_length destination_block destination_size backward
    direction-Apart true high low =
        let (e, l) = high refl in
        let z : source_start * width ≤ destination_start * width = mul-le-mul_right width l in
        omega (arith, add-mul source_start 0 width, add-mul destination_start 0 width)
    direction-Apart false high low = elim (low refl) [
      | inl (e, l) ↦
          let z : destination_start * width ≤ source_start * width = mul-le-mul_right width l in
          inl (omega (arith, add-mul source_start 0 width, add-mul destination_start 0 width))
      | inr (inl l) ↦ inr (
          omega (
            arith,
            range_fits source_start n source_length width x,
            A.room,
            add-mul source_start 0 width,
          ))
      | inr (inr l) ↦ inl (
          omega (
            arith,
            range_fits destination_start n destination_length width y,
            B.room,
            add-mul destination_start 0 width,
          ))
    ]

    starts-Apart :
        Apart source destination source_start destination_start n width h source_length source_block
          source_size destination_length destination_block destination_size
          ((source == destination) && ltb source_start destination_start)
    starts-Apart = elim blocks-Separate [
      | inl (e, b) ↦
          direction-Apart ((source == destination) && ltb source_start destination_start)
            (λ t. (b, ground arith)) (λ t. inl (b, ground arith))
      | inr (ne, apart) ↦
          direction-Apart ((source == destination) && ltb source_start destination_start)
            (λ t. absurd (ne (ground arith))) (λ t. inr apart)
    ]

    starts-Separate : Separate source_block source_size destination_block destination_size
    starts-Separate = elim blocks-Separate [ inl (e, b) ↦ inl b | inr (ne, apart) ↦ inr apart ]

    module _ (narrow : (0 < width) × (width ≤ 8)) where
      -- `k` elements have been moved in the state.
      abbrev Stands : ℕ → Copying → Type 0
      Stands k s =
          (m : Memory) × (s ≡ record {
            pending =
                at source destination source_start destination_start n width
                  ((source == destination) && ltb source_start destination_start) k;
            heap = with_memory h m;
          })
          × Progress source destination source_start destination_start n width h source_length
              source_block source_size destination_length destination_block destination_size
              ((source == destination) && ltb source_start destination_start) k m

      Stands-copy_chunk :
          (k count : ℕ) (s : Copying)
          → count ≤ 256
          → k + count ≤ n
          → Stands k s
          → Moves n Stands (copy_chunk count) tt count k s
      Stands-copy_chunk k count s small fits (m, e, done) =
          let (e', done') =
            copy_chunk-Progress source destination source_start destination_start n width h
              source_length source_block source_size destination_length destination_block
              destination_size A B narrow x y starts-Separate
              ((source == destination) && ltb source_start destination_start) k count m starts-Apart
              small fits done in
          (_, rw e e', (_, refl, done'))

      Stands-remaining : (k : ℕ) (s : Copying) → Stands k s → s.pending.remaining ≡ n - k
      Stands-remaining k s (m, e, done) = rw e refl

  module _ (narrow : (0 < width) × (width ≤ 8)) (p : PendingArrayCopy)
      (e : new
          (source, pos source_length)
          (destination, pos destination_length)
          (pos source_start)
          (pos destination_start)
          (pos n)
          width
        ≡ ok p)
      (budgets : List ℕ) where
    slices-Stands :
        (s' : Copying) × (m : Memory) × (slices budgets (record { pending = p; heap = h })
          ≡ (ok (min n (sum budgets)), s'))
        × (s'.pending.remaining ≡ n - sum budgets)
        × (s'.heap ≡ with_memory h m)
        × Progress source destination source_start destination_start n width h source_length
            source_block source_size destination_length destination_block destination_size
            ((source == destination) && ltb source_start destination_start)
            (min n (sum budgets))
            m
    slices-Stands =
        let (x, y, q) =
          new-at source destination source_length destination_length source_start destination_start
            n width p e in
        let backward = (source == destination) && ltb source_start destination_start in
        let start =
          Progress-start source destination source_start destination_start n width h source_length
            source_block source_size destination_length destination_block destination_size
            backward in
        let (s', r, (m, t, done)) =
          slices-Moves n (Stands x y narrow) (Stands-copy_chunk x y narrow)
            (Stands-remaining x y narrow) budgets 0 (record { pending = p; heap = h }) (omega arith)
            (h.memory, ap (λ (z : PendingArrayCopy). record { pending = z; heap = h }) q, start) in
        let u : min (n - 0) (sum budgets) ≡ min n (sum budgets) = omega arith in
        let v : 0 + min (n - 0) (sum budgets) ≡ min n (sum budgets) = omega arith in
        (
          s',
          m,
          r ∙ ap (λ (z : ℕ). (ok z, s')) u,
          ap (λ (z : Copying). z.pending.remaining) t ∙ omega arith,
          rw t refl,
          rw (sym v) done,
        )

    -- Where `new` accepts a copy between two live arrays, of elements of one to eight bytes, and
    -- different references name blocks that do not overlap: slices of any budgets copy as many
    -- elements as the budgets add up to, or all of them if that is less, and the rest remains.
    -- No slice fails.
    pub slices-used :
        (s' : Copying) × (slices budgets (record { pending = p; heap = h })
          ≡ (ok (min n (sum budgets)), s'))
        × (s'.pending.remaining ≡ n - sum budgets)
    slices-used = let (s', m, r, t, f, done) = slices-Stands in (s', r, t)

    -- Where `new` accepts a copy between two live arrays, of elements of one to eight bytes, and
    -- different references name blocks that do not overlap: slices whose budgets add up to
    -- the length copy all elements, as if all were read before the first was written, and
    -- change nothing else of the heap. The two ranges may overlap.
    pub slices-Moved :
        n ≤ sum budgets
        → (s' : Copying) × (m : Memory) × (slices budgets (record { pending = p; heap = h })
            ≡ (ok n, s'))
          × (s'.pending.remaining ≡ 0)
          × (s'.heap ≡ with_memory h m)
          × Moved h.memory m
              (address h source_block width source_start)
              (address h destination_block width destination_start)
              (n * width)
    slices-Moved enough =
        let (s', m, r, t, f, done) = slices-Stands in
        let u : min n (sum budgets) ≡ n = omega arith in
        let backward = (source == destination) && ltb source_start destination_start in
        (
          s',
          m,
          r ∙ ap (λ (z : ℕ). (ok z, s')) u,
          omega (arith, t),
          f,
          Progress-end source destination source_start destination_start n width h source_length
              source_block source_size destination_length destination_block destination_size
              backward m
              (subst
                (λ (z : ℕ).
                  Progress source destination source_start destination_start n width h source_length
                    source_block source_size destination_length destination_block destination_size
                    backward z m)
                u done),
        )

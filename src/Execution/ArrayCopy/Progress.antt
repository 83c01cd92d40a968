-- ===== src/Execution/ArrayCopy/Progress.antt =====
-- src/execution/array_copy.rs: a copy of `total` elements, of which the first `k` (the last, where it
-- goes backward) have been moved.
use native.Mathlib.Nat.{add-mul}
use compukter_vm.Prelude.{
  ℕ, ◌+◌, ◌-◌, ◌*◌, ◌≤◌, ◌<◌, ◌≡◌, refl, sym, ap, ◌∙◌, ◌⊎◌, inl, inr, arith, Bool, true, false, ok,
  if◌then◌else◌, le→leb, lt→ltb,
}
use compukter_vm.Prelude.Word.{half_word}
use compukter_vm.Execution.Heap.{Memory, Heap, with_memory, payload_offset, copy_within}
use compukter_vm.Execution.ArrayCopy.{
  PendingArrayCopy, chunk_offset, move_chunk, copy_chunk, pass, next_start, set_heap,
}
use compukter_vm.Execution.ArrayCopy.Moves.{
  Moved, Moved-at, Moved-nothing, copy_within-Moved, Moved-forward, Moved-backward,
}
use compukter_vm.Execution.ArrayCopy.Chunks.{
  ArrayAt, address, ArrayAt-frame, Separate, untouched, ArrayAt-lt, range_fits, move_chunk_lem,
}

module _ (source destination source_start destination_start total width : ℕ) where
  abbrev pub at : Bool → ℕ → PendingArrayCopy
  at backward k = record {
    source = source;
    destination = destination;
    source_start = if backward then source_start else source_start + k;
    destination_start = if backward then destination_start else destination_start + k;
    remaining = total - k;
    width = width;
    backward = backward;
  }

  -- The first of the elements that have been moved.
  abbrev pub first : Bool → ℕ → ℕ
  first backward k = if backward then total - k else 0

  chunk_offset-at :
      (backward : Bool) (k count : ℕ)
      → k + count ≤ total
      → chunk_offset count (at backward k) ≡ ok (if backward then total - k - count else 0)
  unfolding chunk_offset
  chunk_offset-at true k count h = ground arith
  chunk_offset-at false k count h = refl

  pass-at :
      (backward : Bool) (k count : ℕ)
      → k + count ≤ total
      → source_start + total < 4294967296
      → destination_start + total < 4294967296
      → pass count (at backward k) ≡ ok (at backward (k + count))
  unfolding pass next_start
  pass-at true k count h l g =
      let e : total - k - count ≡ total - (k + count) = omega arith in
      rw (le→leb count (total - k) (omega arith), e) refl
  pass-at false k count h l g =
      let e : total - k - count ≡ total - (k + count) = omega arith in
      let x : source_start + k + count ≡ source_start + (k + count) = omega arith in
      let y : destination_start + k + count ≡ destination_start + (k + count) = omega arith in
      rw
        (
          le→leb count (total - k) (omega arith),
          lt→ltb (source_start + k + count) half_word (omega arith),
          lt→ltb (destination_start + k + count) half_word (omega arith),
          e,
          x,
          y,
        )
        refl

  -- Where the next chunk of `count` elements lies in those that remain.
  abbrev pub next : Bool → ℕ → ℕ → ℕ
  next backward k count = if backward then total - k - count else 0

  module _ (h : Heap)
      (source_length source_block source_size destination_length destination_block
        destination_size : ℕ) where
    -- The addresses of the elements of the two arrays.
    abbrev pub from : ℕ → ℕ
    from i = address h source_block width (source_start + i)

    abbrev pub to : ℕ → ℕ
    to i = address h destination_block width (destination_start + i)

    from-add : (i k : ℕ) → from (i + k) ≡ from i + k * width
    from-add i k = omega (
      arith,
      add-mul (source_start + i) k width,
      add-mul source_start (i + k) width,
      add-mul source_start i width,
      add-mul i k width,
    )

    to-add : (i k : ℕ) → to (i + k) ≡ to i + k * width
    to-add i k = omega (
      arith,
      add-mul (destination_start + i) k width,
      add-mul destination_start (i + k) width,
      add-mul destination_start i width,
      add-mul i k width,
    )

    -- `k` elements have been moved in the memory that is now `m`.
    abbrev pub Progress : Bool → ℕ → Memory → Type 0
    Progress backward k m =
        (k ≤ total) × Moved h.memory m (from (first backward k)) (to (first backward k)) (k * width)

    -- No chunk reads what an earlier one wrote.
    abbrev pub Apart : Bool → Type 0
    Apart true = from 0 ≤ to 0
    Apart false = (to 0 ≤ from 0) ⊎ (from 0 + total * width ≤ to 0)

    pub Progress-start : (backward : Bool) → Progress backward 0 h.memory
    Progress-start backward = (
      omega arith,
      Moved-at h.memory h.memory refl refl (omega arith)
          (Moved-nothing h.memory (from (first backward 0)) (to (first backward 0))),
    )

    pub Progress-end :
        (backward : Bool) (m : Memory)
        → Progress backward total m
        → Moved h.memory m
            (address h source_block width source_start)
            (address h destination_block width destination_start)
            (total * width)
    Progress-end true m done =
        Moved-at h.memory m (ap (address h source_block width) (omega arith))
          (ap (address h destination_block width) (omega arith)) refl done.1
    Progress-end false m done =
        Moved-at h.memory m (ap (address h source_block width) (omega arith))
          (ap (address h destination_block width) (omega arith)) refl done.1

    -- The memory behind a further chunk.
    abbrev pub behind : Bool → ℕ → ℕ → Memory → Memory
    behind backward k count m =
        copy_within m
          (address h source_block width ((at backward k).source_start + next backward k count))
          (count * width)
          (address h destination_block width
            ((at backward k).destination_start + next backward k count))

    Progress-add :
        (backward : Bool) (k count : ℕ) (m : Memory)
        → Apart backward
        → k + count ≤ total
        → Progress backward k m
        → Progress backward (k + count) (behind backward k count m)
    Progress-add true k count m apart fits done =
        let o : ℕ = total - k - count in
        let e : total - (k + count) ≡ o = omega arith in
        let e' : o + count ≡ total - k = omega arith in
        let x = ap from (sym e') ∙ from-add o count in
        let y = ap to (sym e') ∙ to-add o count in
        (
          fits,
          Moved-at h.memory (behind true k count m) (ap from (sym e)) (ap to (sym e))
              (omega (arith, add-mul k count width))
              (Moved-backward h.memory m (behind true k count m) (from o) (to o) (k * width)
                (count * width) (omega (arith, from-add 0 o, to-add 0 o))
                (Moved-at h.memory m x y refl done.1)
                (copy_within-Moved m (from o) (count * width) (to o))),
        )
    Progress-add false k count m apart fits done =
        let f : address h source_block width (source_start + k + 0) ≡ from 0 + k * width =
          ap (address h source_block width) (omega arith) ∙ from-add 0 k in
        let t : address h destination_block width (destination_start + k + 0) ≡ to 0 + k * width =
          ap (address h destination_block width) (omega arith) ∙ to-add 0 k in
        (
          fits,
          Moved-at h.memory (behind false k count m) refl refl
              (omega (arith, add-mul k count width))
              (Moved-forward h.memory m (behind false k count m) (from 0) (to 0) (k * width)
                (count * width)
                (elim apart [
                  | inl e ↦ inl e
                  | inr e ↦ inr (omega (arith, range_fits k count total width fits))
                ])
                done.1 (Moved-at m (behind false k count m) f t refl (copy_within-Moved m _ _ _))),
        )

    module _ (A : ArrayAt h source source_length width source_block source_size)
        (B : ArrayAt h destination destination_length width destination_block destination_size)
        (narrow : (0 < width) × (width ≤ 8)) (source_fits : source_start + total ≤ source_length)
        (destination_fits : destination_start + total ≤ destination_length)
        (apart_blocks : Separate source_block source_size destination_block destination_size) where
      ArrayAt-source :
          (backward : Bool) (k : ℕ) (m : Memory)
          → Progress backward k m
          → ArrayAt (with_memory h m) source source_length width source_block source_size
      ArrayAt-source backward k m done =
          ArrayAt-frame h m source source_length width source_block source_size
            (untouched h m destination destination_length width destination_block destination_size
              source_block source_size (from (first backward k))
              (destination_start + first backward k) k B (ground arith) apart_blocks done.1)
            A

      ArrayAt-destination :
          (backward : Bool) (k : ℕ) (m : Memory)
          → Progress backward k m
          → ArrayAt
              (with_memory h m)
              destination
              destination_length
              width
              destination_block
              destination_size
      ArrayAt-destination backward k m done =
          ArrayAt-frame h m destination destination_length width destination_block destination_size
            (untouched h m destination destination_length width destination_block destination_size
              destination_block destination_size (from (first backward k))
              (destination_start + first backward k) k B (ground arith) (inl refl) done.1)
            B

      move_chunk-at :
          (backward : Bool) (k count : ℕ) (m : Memory)
          → count ≤ 256
          → k + count ≤ total
          → Progress backward k m
          → move_chunk count (at backward k) (with_memory h m)
            ≡ ok (with_memory h (behind backward k count m))
      unfolding payload_offset
      move_chunk-at backward k count m small fits done =
          move_chunk_lem (with_memory h m) source destination source_length source_block source_size
            destination_length destination_block destination_size width
            (ArrayAt-source backward k m done) (ArrayAt-destination backward k m done) narrow count
            (next backward k count) (at backward k) refl refl refl small
            (chunk_offset-at backward k count fits) (ground arith) (ground arith)

      pub copy_chunk-Progress :
          (backward : Bool) (k count : ℕ) (m : Memory)
          → Apart backward
          → count ≤ 256
          → k + count ≤ total
          → Progress backward k m
          → (copy_chunk count (record { pending = at backward k; heap = with_memory h m }) ≡ (
            ok tt,
            record {
              pending = at backward (k + count);
              heap = with_memory h (behind backward k count m);
            },
          ))
            × Progress backward (k + count) (behind backward k count m)
      unfolding copy_chunk set_heap
      copy_chunk-Progress backward k count m apart small fits done = (
        rw
            (
              move_chunk-at backward k count m small fits done,
              pass-at backward k count fits
                  (omega (
                    arith,
                    ArrayAt-lt h source source_length width source_block source_size A narrow.0,
                  ))
                  (omega (
                    arith,
                    ArrayAt-lt h destination destination_length width destination_block
                        destination_size B narrow.0,
                  )),
            )
            refl,
        Progress-add backward k count m apart fits done,
      )

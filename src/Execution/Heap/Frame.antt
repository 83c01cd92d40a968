-- ===== src/Execution/Heap/Frame.antt =====
-- src/execution/heap.rs: what is read of a block's header depends on the header's bytes alone.
use compukter_vm.Prelude.{
  ℕ, zero, suc, ◌+◌, ◌*◌, ◌-◌, ◌≤◌, ◌<◌, ◌≡◌, refl, ap₂, arith, ok, Bool-cases, inl, inr, ltb,
}
use compukter_vm.Prelude.Word.{half_word}
use compukter_vm.Execution.Heap.{
  HeaderFormat, legacy, compact, Memory, Heap, with_memory, Ref32, payload, read_le, read_unit,
  read_word, read_compact_header, flags_in, read_flags, block_allocated, size_in, block_size,
  when_live, live_block,
}

read_le-frame :
    (m m' : Memory) (a n : ℕ)
    → ((j : ℕ) → a ≤ j → j < a + n → m' j ≡ m j)
    → read_le m' a n ≡ read_le m a n
unfolding read_le
read_le-frame m m' a zero same = refl
read_le-frame m m' a (suc n) same =
    ap₂ (λ (x y : ℕ). x + 256 * y) (same a (omega arith) (omega arith))
      (read_le-frame m m' (suc a) n (λ j h l. same j (omega arith) (omega arith)))

read_unit-frame :
    (h : Heap) (m' : Memory) (b n : ℕ)
    → ((a : ℕ) → b ≤ a → a < b + n → m' a ≡ h.memory a)
    → read_unit (with_memory h m') b n ≡ read_unit h b n
unfolding read_unit
read_unit-frame h m' b n same = rw (read_le-frame h.memory m' b n same) refl

module _ (h : Heap) (m' : Memory) (b : ℕ)
    (same : (a : ℕ) → b ≤ a → a < b + 8 → m' a ≡ h.memory a) where
  read_word-frame : read_word (with_memory h m') b 0 ≡ read_word h b 0
  unfolding read_word
  read_word-frame = elim (Bool-cases (ltb (b + 0) half_word)) [
    | inl e ↦ rw e (read_unit-frame h m' (b + 0) 4 λ a l k. same a (omega arith) (omega arith))
    | inr e ↦ rw e refl
  ]

  read_compact_header-frame : read_compact_header (with_memory h m') b ≡ read_compact_header h b
  unfolding read_compact_header
  read_compact_header-frame = read_unit-frame h m' b 8 same

  flags_in-frame : (f : HeaderFormat) → flags_in f (with_memory h m') b ≡ flags_in f h b
  unfolding flags_in
  flags_in-frame legacy = rw read_word-frame refl
  flags_in-frame (compact size_bits link_bits) = rw read_compact_header-frame refl

  size_in-frame : (f : HeaderFormat) → size_in f (with_memory h m') b ≡ size_in f h b
  unfolding size_in
  size_in-frame legacy = rw read_word-frame refl
  size_in-frame (compact size_bits link_bits) = rw read_compact_header-frame refl

  read_flags-frame : read_flags (with_memory h m') b ≡ read_flags h b
  unfolding read_flags
  read_flags-frame = flags_in-frame h.header_format

  block_allocated-frame : block_allocated (with_memory h m') b ≡ block_allocated h b
  unfolding block_allocated
  block_allocated-frame = rw read_flags-frame refl

  pub block_size-frame : block_size (with_memory h m') b ≡ block_size h b
  unfolding block_size
  block_size-frame = rw (size_in-frame h.header_format) refl

  when_live-frame : when_live (with_memory h m') b ≡ when_live h b
  unfolding when_live
  when_live-frame = rw (block_allocated-frame, read_flags-frame) refl

when_live-ok : (h : Heap) (block b : ℕ) → when_live h block ≡ ok b → b ≡ block
unfolding when_live
when_live-ok h block b live = ground arith

-- A live block stands in front of the word that its reference names.
live_block-ok :
    (h : Heap) (reference : Ref32) (b : ℕ)
    → live_block h reference ≡ ok b
    → b ≡ payload reference - 8
unfolding live_block
live_block-ok h reference b live = ground (arith, when_live-ok h (payload reference - 8) b)

pub live_block-frame :
    (h : Heap) (m' : Memory) (reference : Ref32) (b : ℕ)
    → live_block h reference ≡ ok b
    → ((a : ℕ) → b ≤ a → a < b + 8 → m' a ≡ h.memory a)
    → live_block (with_memory h m') reference ≡ ok b
unfolding live_block
live_block-frame h m' reference b live same =
    let e = live_block-ok h reference b live in
    rw
      (when_live-frame h m' (payload reference - 8)
        λ a l k. same a (omega (arith, e)) (omega (arith, e)))
      live

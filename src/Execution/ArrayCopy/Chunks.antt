-- ===== src/Execution/ArrayCopy/Chunks.antt =====
-- src/execution/array_copy.rs: one chunk of a copy between two live arrays.
use native.Mathlib.Nat.{mul-le-mul, add-mul, mul-le-mul_left, mul-le-mul_right}
use compukter_vm.Prelude.{
  ℕ, ◌+◌, ◌*◌, ◌≤◌, ◌<◌, ◌≡◌, refl, ◌∙◌, ◌⊎◌, inl, inr, arith, ok, le→leb, lt→ltb,
}
use compukter_vm.Prelude.Word.{half_word}
use compukter_vm.Execution.Heap.{
  Memory, HeaderFormat, legacy, compact, format_bytes, Heap, with_memory, Ref32, payload_offset,
  live_block, block_size, span, copy_within, copy_payload_range,
}
use compukter_vm.Execution.Heap.Frame.{live_block-frame, block_size-frame}
use compukter_vm.Execution.ArrayCopy.Moves.{Moved}
use compukter_vm.Execution.ArrayCopy.{PendingArrayCopy, element_offset, chunk_offset, move_chunk}

-- The reference names a live block of `size` bytes at `block` with room for the elements.
pub record ArrayAt (h : Heap) (reference : Ref32) (length width block size : ℕ) : Type 0 where
  pub live : live_block h reference ≡ ok block
  pub sized : block_size h block ≡ ok size
  pub room : payload_offset h + (8 + length * width) ≤ size
  pub inside : block + size ≤ h.arena_bytes
  pub backed : h.arena_bytes ≤ h.units * 16
  pub addressed : h.arena_bytes < half_word

format_bytes-ge : (f : HeaderFormat) → 8 ≤ format_bytes f
unfolding format_bytes
format_bytes-ge legacy = omega arith
format_bytes-ge (compact size_bits link_bits) = omega arith

pub payload_offset-ge : (h : Heap) → 8 ≤ payload_offset h
unfolding payload_offset
payload_offset-ge h = format_bytes-ge h.header_format

-- The address of an element.
abbrev pub address : Heap → ℕ → ℕ → ℕ → ℕ
address h block width i = block + payload_offset h + (i * width + 8)

pub ArrayAt-frame :
    (h : Heap) (m : Memory) (reference : Ref32) (length width block size : ℕ)
    → ((a : ℕ) → block ≤ a → a < block + 8 → m a ≡ h.memory a)
    → ArrayAt h reference length width block size
    → ArrayAt (with_memory h m) reference length width block size
unfolding payload_offset
ArrayAt-frame h m reference length width block size same A = record {
  live = live_block-frame h m reference block A.live same;
  sized = block_size-frame h m block same ∙ A.sized;
  room = A.room;
  inside = A.inside;
  backed = A.backed;
  addressed = A.addressed;
}

span-ArrayAt :
    (h : Heap) (reference : Ref32) (length width block size n offset : ℕ)
    → ArrayAt h reference length width block size
    → offset + n ≤ 8 + length * width
    → span h n reference offset ≡ ok (block + payload_offset h + offset)
unfolding span
span-ArrayAt h reference length width block size n offset A fits =
    rw (A.live, A.sized) (ground (arith, A.room, A.inside, A.addressed))

element_offset_lem :
    (start offset width : ℕ)
    → 0 < width
    → (start + offset) * width + 8 < half_word
    → element_offset start offset width ≡ ok ((start + offset) * width + 8)
unfolding element_offset
element_offset_lem start offset width h l =
    let small : (start + offset) * 1 ≤ (start + offset) * width =
      mul-le-mul_left (start + offset) h in
    ground arith

-- A range of elements of an array lies in its payload.
pub range_fits :
    (i count length width : ℕ) → i + count ≤ length → i * width + count * width ≤ length * width
range_fits i count length width h =
    let le : (i + count) * width ≤ length * width = mul-le-mul_right width h in
    omega (arith, add-mul i count width, le)

-- Two blocks that are the same or do not overlap.
abbrev pub Separate : ℕ → ℕ → ℕ → ℕ → Type 0
Separate b size b' size' = (b ≡ b') ⊎ ((b + size ≤ b') ⊎ (b' + size' ≤ b))

-- A move into an array leaves the headers of all blocks.
pub untouched :
    (h : Heap) (m : Memory) (reference : Ref32) (length width block size b size' s i k : ℕ)
    → ArrayAt h reference length width block size
    → i + k ≤ length
    → Separate b size' block size
    → Moved h.memory m s (address h block width i) (k * width)
    → (a : ℕ) → b ≤ a
    → a < b + 8
    → m a ≡ h.memory a
untouched h m reference length width block size b size' s i k A fits apart done a l g =
    let x = range_fits i k length width fits in
    let y = payload_offset-ge h in
    done.1 a (elim apart [
      | inl e ↦ inl (omega (arith, y))
      | inr (inl e) ↦ inl (omega (arith, y))
      | inr (inr e) ↦ inr (omega (arith, x, A.room))
    ])

pub ArrayAt-lt :
    (h : Heap) (reference : Ref32) (length width block size : ℕ)
    → ArrayAt h reference length width block size
    → 0 < width
    → length < half_word
ArrayAt-lt h reference length width block size A wide =
    let le : length * 1 ≤ length * width = mul-le-mul_left length wide in
    omega (arith, A.room, A.inside, A.addressed)

module _ (h : Heap) (source destination : Ref32)
    (source_length source_block source_size destination_length destination_block destination_size
      width : ℕ)
    (A : ArrayAt h source source_length width source_block source_size)
    (B : ArrayAt h destination destination_length width destination_block destination_size)
    (narrow : (0 < width) × (width ≤ 8)) where
  pub copy_payload_range_lem :
      (i j count : ℕ)
      → i + count ≤ source_length
      → j + count ≤ destination_length
      → copy_payload_range h source (i * width + 8) destination (j * width + 8) (count * width)
        ≡ ok (
            with_memory h (
              copy_within h.memory
                (address h source_block width i)
                (count * width)
                (address h destination_block width j)))
  unfolding copy_payload_range
  copy_payload_range_lem i j count si dj =
      let x = range_fits i count source_length width si in
      let y = range_fits j count destination_length width dj in
      rw
        (
          span-ArrayAt h source source_length width source_block source_size (count * width)
              (i * width + 8) A (omega (arith, x)),
          span-ArrayAt h destination destination_length width destination_block destination_size
              (count * width) (j * width + 8) B (omega (arith, y)),
          le→leb (address h source_block width i + count * width) (h.units * 16)
              (omega (arith, x, A.room, A.inside, A.backed)),
          le→leb (address h destination_block width j + count * width) (h.units * 16)
              (omega (arith, y, B.room, B.inside, B.backed)),
        )
        refl

  -- The elements of a chunk of `count` from `offset` on.
  pub move_chunk_lem :
      (count offset : ℕ) (p : PendingArrayCopy)
      → p.source ≡ source
      → p.destination ≡ destination
      → p.width ≡ width
      → count ≤ 256
      → chunk_offset count p ≡ ok offset
      → p.source_start + offset + count ≤ source_length
      → p.destination_start + offset + count ≤ destination_length
      → move_chunk count p h
        ≡ ok (
            with_memory h (
              copy_within h.memory
                (address h source_block width (p.source_start + offset))
                (count * width)
                (address h destination_block width (p.destination_start + offset))))
  unfolding move_chunk
  move_chunk_lem count offset p es ed ew small eo si di =
      let x = range_fits (p.source_start + offset) count source_length width si in
      let y = range_fits (p.destination_start + offset) count destination_length width di in
      let z : count * width ≤ 256 * 8 = mul-le-mul small narrow.1 in
      rw
        (
          eo,
          ew,
          es,
          ed,
          element_offset_lem p.source_start offset width narrow.0
              (omega (arith, x, A.room, A.inside, A.addressed)),
          element_offset_lem p.destination_start offset width narrow.0
              (omega (arith, y, B.room, B.inside, B.addressed)),
          lt→ltb (count * width) half_word (omega (arith, z)),
        )
        (copy_payload_range_lem (p.source_start + offset) (p.destination_start + offset) count si
          di)

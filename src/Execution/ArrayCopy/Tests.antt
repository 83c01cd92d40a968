-- ===== src/Execution/ArrayCopy/Tests.antt =====
-- Copies on a concrete heap.
use compukter_vm.Prelude.{◌≡◌, refl, ◌⊎◌, arith, [], ◌∷◌, map, ok, err, ltb, ◌==◌, if◌then◌else◌}
use compukter_vm.Prelude.Int.{pos, negsuc}
use compukter_vm.Prelude.Bits.{odd}
use compukter_vm.Execution.Heap.{
  Memory, Heap, legacy, compact, with_memory, live_block, block_size, copy_payload_range,
  payload_offset, corrupt_heap, invalid_reference,
}
use compukter_vm.Execution.ArrayCopy.{
  PendingArrayCopy, Copying, made, new, index_out_of_bounds, slices,
}
use compukter_vm.Execution.ArrayCopy.Moves.{Moved}
use compukter_vm.Execution.ArrayCopy.Chunks.{ArrayAt, address}
use compukter_vm.Execution.ArrayCopy.Accepting.{Within, new-Within}
use compukter_vm.Execution.ArrayCopy.Copies.{slices-used, slices-Moved}

-- One live block of 64 bytes; every other byte is its own address.
abbrev bytes : Memory
bytes a = if a == 0 then 69 else if ltb a 4 then 0 else a

abbrev heap : Heap
heap = record { header_format = legacy; units = 4; memory = bytes; arena_bytes = 64 }

heap-live : live_block heap 8 ≡ ok 0
unfolding live_block odd
heap-live = refl

heap-size : block_size heap 0 ≡ ok 64
unfolding block_size
heap-size = refl

-- Its array has ten elements of four bytes.
ten : ArrayAt heap 8 10 4 0 64
unfolding payload_offset
ten = record {
  live = heap-live;
  sized = heap-size;
  room = omega arith;
  inside = omega arith;
  backed = omega arith;
  addressed = omega arith;
}

-- Nine elements by one place to the right.
abbrev shifted : PendingArrayCopy
shifted = made 8 8 0 1 9 4

new-shifted : new (8, pos 10) (8, pos 10) (pos 0) (pos 1) (pos 9) 4 ≡ ok shifted
unfolding new
new-shifted = refl

slices-used_example :
    (s' : Copying) × (slices (3 ∷ 2 ∷ []) (record { pending = shifted; heap = heap }) ≡ (ok 5, s'))
    × (s'.pending.remaining ≡ 4)
slices-used_example =
    slices-used heap 8 8 0 1 9 4 10 0 64 10 0 64 ten ten (λ ne. absurd (ne refl))
      (omega arith, omega arith) shifted new-shifted (3 ∷ 2 ∷ [])

slices-Moved_example :
    (s' : Copying) × (m : Memory) × (slices
        (3 ∷ 10 ∷ [])
        (record { pending = shifted; heap = heap })
      ≡ (ok 9, s'))
    × (s'.pending.remaining ≡ 0)
    × (s'.heap ≡ with_memory heap m)
    × Moved bytes m (address heap 0 4 0) (address heap 0 4 1) 36
slices-Moved_example =
    slices-Moved heap 8 8 0 1 9 4 10 0 64 10 0 64 ten ten (λ ne. absurd (ne refl))
      (omega arith, omega arith) shifted new-shifted (3 ∷ 10 ∷ []) (omega arith)

new-Within_example :
    (Within (pos 0) (pos 9) (pos 10)
      × Within (negsuc 0) (pos 9) (pos 10)
      × ((p : PendingArrayCopy) × (new (8, pos 10) (8, pos 10) (pos 0) (negsuc 0) (pos 9) 4
            ≡ ok p)))
    ⊎ ((¬ (Within (pos 0) (pos 9) (pos 10) × Within (negsuc 0) (pos 9) (pos 10)))
        × (new (8, pos 10) (8, pos 10) (pos 0) (negsuc 0) (pos 9) 4 ≡ err index_out_of_bounds))
new-Within_example = new-Within (8, pos 10) (8, pos 10) (pos 0) (negsuc 0) (pos 9) 4

-- The first three elements and the last, byte by byte, behind the copy.
slices-bytes :
    map
      (slices (3 ∷ 10 ∷ []) (record { pending = shifted; heap = heap })).1.heap.memory
      (20 ∷ 24 ∷ 27 ∷ 28 ∷ 56 ∷ 59 ∷ 60 ∷ [])
    ≡ 20 ∷ 20 ∷ 23 ∷ 24 ∷ 52 ∷ 55 ∷ 60 ∷ []
unfolding slices copy_payload_range odd
slices-bytes = refl

new-past_end : new (8, pos 10) (8, pos 10) (pos 2) (pos 0) (pos 9) 4 ≡ err index_out_of_bounds
unfolding new
new-past_end = refl

-- A reference of another domain, and a range past the block.
live_block-image : live_block heap 1073741832 ≡ err invalid_reference
unfolding live_block odd
live_block-image = refl

copy_payload_range-past_end : copy_payload_range heap 8 8 8 12 48 ≡ err corrupt_heap
unfolding copy_payload_range odd
copy_payload_range-past_end = refl

-- A compact header of four units of eight bytes.
block_size-compact :
    block_size
      (record {
        header_format = compact 4 4;
        units = 2;
        memory = λ a. if a == 0 then 37 else 0;
        arena_bytes = 32;
      })
      0
    ≡ ok 32
unfolding block_size
block_size-compact = refl

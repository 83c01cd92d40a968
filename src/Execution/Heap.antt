-- ===== src/Execution/Heap.antt =====
-- src/execution/heap.rs, value.rs, layout.rs: the heap as an array copy uses it, which is the lookup
-- of a live block by its reference and the move of payload bytes. The allocator and the
-- collector are not here, so the fields that only they use are left out.
-- The arena is the number of its 16-byte units and the byte at each address. A `u32` is a natural
-- number; where the source adds without a check the sum is checked here, and too large a
-- sum is a panic.
pub mod Frame
use compukter_vm.Prelude.{
  ℕ, zero, suc, ◌+◌, ◌-◌, ◌*◌, ◌/◌, ◌%◌, ◌^◌, Option, none, some, Bool, true, false, ◌||◌, not,
  Result, ok, err, panic, ok_or, and_then, ltb, leb, ◌==◌, if◌then◌else◌,
}
use compukter_vm.Prelude.Word.{half_word, checked_add_u32}
use compukter_vm.Prelude.Bits.{odd}

pub data VmFault : Type 0 where
  invalid_resolved_id invalid_value_type accounting_overflow invalid_storage_plan corrupt_lifecycle
        reached_unreachable unsupported_instruction handle_exhausted corrupt_heap invalid_reference
        invalid_root_map :
      VmFault

pub data HeaderFormat : Type 0 where
  legacy : HeaderFormat
  compact : (size_bits link_bits : ℕ) → HeaderFormat

abbrev pub Memory : Type 0
Memory = ℕ → ℕ

pub record Heap : Type 0 where
  pub header_format : HeaderFormat
  pub units : ℕ
  pub memory : Memory
  pub arena_bytes : ℕ

abbrev pub with_memory : Heap → Memory → Heap
with_memory h m = record {
  header_format = h.header_format;
  units = h.units;
  memory = m;
  arena_bytes = h.arena_bytes;
}

abbrev block_alignment : ℕ
block_alignment = 8

abbrev minimum_block_bytes : ℕ
minimum_block_bytes = 16

abbrev object_type_id : ℕ
object_type_id = 8

pub data ReferenceDomain : Type 0 where
  managed image external reserved : ReferenceDomain

-- `Ref32` is its bits.
abbrev pub Ref32 : Type 0
Ref32 = ℕ

unfoldable pub domain : Ref32 → ReferenceDomain
domain reference =
    if reference / 2 ^ 30 == 0
    then managed
    else if reference / 2 ^ 30 == 1
    then image
    else if reference / 2 ^ 30 == 2
    then external
    else reserved

unfoldable pub payload : Ref32 → ℕ
payload reference = reference % 2 ^ 30

unfoldable pub is_managed : ReferenceDomain → Bool
is_managed managed = true
is_managed _ = false

-- `HeaderFormat::bytes`
unfoldable pub format_bytes : HeaderFormat → ℕ
format_bytes legacy = 12
format_bytes (compact size_bits link_bits) = 8

unfoldable pub payload_offset : Heap → ℕ
unfolding format_bytes
payload_offset h = format_bytes h.header_format

-- `from_le_bytes` of the bytes from an address on
unfoldable pub read_le : Memory → ℕ → ℕ → ℕ
read_le m address zero = 0
read_le m address (suc n) = m address + 256 * read_le m (suc address) n

-- The bytes of one unit, where they lie in it.
unfoldable pub read_unit : Heap → ℕ → ℕ → Result VmFault ℕ
unfolding read_le
read_unit h start n =
    if ltb (start / 16) h.units
    then if leb (start % 16 + n) 16 then ok (read_le h.memory start n) else err corrupt_heap
    else err corrupt_heap

unfoldable pub read_word : Heap → ℕ → ℕ → Result VmFault ℕ
unfolding read_unit
read_word h block field =
    and_then (ok_or (checked_add_u32 block field) corrupt_heap) λ start. read_unit h start 4

unfoldable pub read_compact_header : Heap → ℕ → Result VmFault ℕ
unfolding read_unit
read_compact_header h block = read_unit h block 8

-- The match on the format in `read_flags`.
unfoldable pub flags_in : HeaderFormat → Heap → ℕ → Result VmFault ℕ
unfolding read_word read_compact_header
flags_in legacy h block = and_then (read_word h block 0) λ word. ok (word % block_alignment)
flags_in (compact size_bits link_bits) h block =
    and_then (read_compact_header h block) λ header. ok (header % 8)

unfoldable pub read_flags : Heap → ℕ → Result VmFault ℕ
unfolding flags_in
read_flags h block = flags_in h.header_format h block

unfoldable pub block_allocated : Heap → ℕ → Result VmFault Bool
unfolding read_flags
block_allocated h block = and_then (read_flags h block) λ flags. ok (odd flags)

-- The match on the format in `block_size`.
unfoldable pub size_in : HeaderFormat → Heap → ℕ → Result VmFault ℕ
unfolding read_word read_compact_header
size_in legacy h block = and_then (read_word h block 0) λ word. ok (word - word % block_alignment)
size_in (compact size_bits link_bits) h block = and_then (read_compact_header h block) λ header.
    let bytes = header / 8 % 2 ^ size_bits * block_alignment in
    if ltb bytes half_word then ok bytes else err corrupt_heap

unfoldable pub block_size : Heap → ℕ → Result VmFault ℕ
unfolding size_in
block_size h block = and_then (size_in h.header_format h block) λ size.
    if ltb size minimum_block_bytes || not (size % block_alignment == 0)
    then err corrupt_heap
    else ok size

-- The last two conditions of `live_block`, in their order: flag 1 is ALLOCATED and flag 4 is LIVE.
unfoldable pub when_live : Heap → ℕ → Result VmFault ℕ
unfolding block_allocated read_flags
when_live h block = and_then (block_allocated h block) λ allocated.
    if not allocated
    then err invalid_reference
    else and_then (read_flags h block)
        λ flags. if odd (flags / 4) then ok block else err invalid_reference

unfoldable pub live_block : Heap → Ref32 → Result VmFault ℕ
unfolding domain payload is_managed when_live
live_block h reference =
    if not (is_managed (domain reference))
      || (ltb (payload reference) object_type_id || not (payload reference % block_alignment == 0))
    then err invalid_reference
    else if leb h.arena_bytes (payload reference - object_type_id)
    then err invalid_reference
    else when_live h (payload reference - object_type_id)

-- The closure `span` of `copy_payload_range`.
unfoldable pub span : Heap → ℕ → Ref32 → ℕ → Result VmFault ℕ
unfolding live_block block_size payload_offset
span h length reference offset = and_then (live_block h reference) λ block.
    and_then (block_size h block) λ size.
      if ltb size (payload_offset h)
      then err corrupt_heap
      else and_then (ok_or (checked_add_u32 offset length) corrupt_heap) λ end.
        if ltb (size - payload_offset h) end
        then err corrupt_heap
        else and_then (ok_or (checked_add_u32 block (payload_offset h)) corrupt_heap) λ base.
          and_then (ok_or (checked_add_u32 base offset) corrupt_heap) λ start.
            and_then (ok_or (checked_add_u32 start length) corrupt_heap)
              λ last. if ltb h.arena_bytes last then err corrupt_heap else ok start

-- `bytes.copy_within(source..source + n, destination)`: the bytes as they were before.
unfoldable pub copy_within : Memory → ℕ → ℕ → ℕ → Memory
copy_within m source n destination address =
    if leb destination address
    then if ltb address (destination + n) then m (address - destination + source) else m address
    else m address

unfoldable pub copy_payload_range : Heap → Ref32 → ℕ → Ref32 → ℕ → ℕ → Result VmFault Heap
unfolding span copy_within
copy_payload_range h source source_offset destination destination_offset n =
    and_then (span h n source source_offset) λ source_start.
      and_then (span h n destination destination_offset) λ destination_start.
        if leb (source_start + n) (h.units * 16)
        then if leb (destination_start + n) (h.units * 16)
          then ok (with_memory h (copy_within h.memory source_start n destination_start))
          else panic
        else panic

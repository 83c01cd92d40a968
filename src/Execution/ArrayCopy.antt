-- ===== src/Execution/ArrayCopy.antt =====
-- src/execution/array_copy.rs: the copy of a range of array elements, which is suspended when its
-- slice of the budget is used up. An `i32` is an integer, a `u32` a natural number; a sum or a
-- product that the source does not check is a panic where it does not fit.
pub mod Moves
pub mod Chunks
pub mod Progress
pub mod Slices
pub mod Accepting
pub mod Copies
mod Tests
use compukter_vm.Prelude.{
  ℕ, zero, suc, ◌+◌, ◌-◌, ◌*◌, min, Option, none, some, Bool, true, false, ◌&&◌, ◌||◌, List, [],
  ◌∷◌, Result, ok, err, panic, ok_or, expect, and_then, Method, ◌>>=◌, ◌>>◌, pure, lift, gets,
  modify, ltb, ◌==◌, if◌then◌else◌,
}
use compukter_vm.Prelude.Int.{ℤ, pos, negsuc}
use compukter_vm.Prelude.Word.{half_word, checked_add_u32, checked_sub}
use compukter_vm.Execution.Heap.{VmFault, corrupt_heap, Heap, Ref32, copy_payload_range}

pub data GuestTrap : Type 0 where
  division_by_zero stack_overflow negative_array_size null_reference index_out_of_bounds class_cast
        invalid_exit_code invalid_argument :
      GuestTrap

pub record PendingArrayCopy : Type 0 where
  pub source : Ref32
  pub destination : Ref32
  pub source_start : ℕ
  pub destination_start : ℕ
  pub remaining : ℕ
  pub width : ℕ
  pub backward : Bool

-- `end > bound` for an end that is not negative
unfoldable pub exceeds : ℕ → ℤ → Bool
exceeds end (pos bound) = ltb bound end
exceeds end (negsuc bound) = true

-- `checked_add(length).is_none_or(|end| end > bound)` of two numbers that are not negative
unfoldable pub leaves : ℕ → ℕ → ℤ → Bool
unfolding exceeds
leaves start length bound =
    if ltb (start + length) 2147483648 then exceeds (start + length) bound else true

-- The copy that `new` makes of accepted arguments.
abbrev pub made : Ref32 → Ref32 → ℕ → ℕ → ℕ → ℕ → PendingArrayCopy
made source destination source_start destination_start length width = record {
  source = source;
  destination = destination;
  source_start = source_start;
  destination_start = destination_start;
  remaining = length;
  width = width;
  backward = (source == destination) && ltb source_start destination_start;
}

unfoldable pub new : Ref32 × ℤ → Ref32 × ℤ → ℤ → ℤ → ℤ → ℕ → Result GuestTrap PendingArrayCopy
unfolding leaves
new source destination (pos source_start) (pos destination_start) (pos length) width =
    if leaves source_start length source.1 || leaves destination_start length destination.1
    then err index_out_of_bounds
    else ok (made source.0 destination.0 source_start destination_start length width)
new source destination _ _ _ width = err index_out_of_bounds

-- What a method changes: the copy and the heap.
pub record Copying : Type 0 where
  pub pending : PendingArrayCopy
  pub heap : Heap

abbrev pub C : Type 0 → Type 0
C = Method Copying VmFault

-- `a.checked_mul(b)` of a `u32`
abbrev pub checked_mul_u32 : ℕ → ℕ → Option ℕ
checked_mul_u32 a b = if ltb (a * b) half_word then some (a * b) else none

-- The place of an element in the payload, behind the eight bytes of the array's header.
unfoldable pub element_offset : ℕ → ℕ → ℕ → Result VmFault ℕ
element_offset start offset width =
    and_then (ok_or (checked_add_u32 start offset) corrupt_heap) λ index.
      and_then (ok_or (checked_mul_u32 index width) corrupt_heap)
        λ bytes. ok_or (checked_add_u32 bytes 8) corrupt_heap

unfoldable pub set_heap : Heap → C (Unit {0})
set_heap h = modify λ s. record { pending = s.pending; heap = h }

-- The place of a chunk of `count` elements in those that remain.
unfoldable pub chunk_offset : ℕ → PendingArrayCopy → Result VmFault ℕ
chunk_offset count p = if p.backward then expect (checked_sub p.remaining count) else ok 0

-- A start behind a chunk of `count` elements.
unfoldable pub next_start : ℕ → PendingArrayCopy → ℕ → Result VmFault ℕ
next_start count p start = if p.backward then ok start else expect (checked_add_u32 start count)

-- The counters behind a chunk of `count` elements.
unfoldable pub pass : ℕ → PendingArrayCopy → Result VmFault PendingArrayCopy
unfolding next_start
pass count p = and_then (expect (checked_sub p.remaining count)) λ remaining.
    and_then (next_start count p p.source_start) λ source_start.
      and_then (next_start count p p.destination_start) λ destination_start. ok record {
        source = p.source;
        destination = p.destination;
        source_start = source_start;
        destination_start = destination_start;
        remaining = remaining;
        width = p.width;
        backward = p.backward;
      }

-- The move of a chunk in the heap.
unfoldable pub move_chunk : ℕ → PendingArrayCopy → Heap → Result VmFault Heap
unfolding chunk_offset element_offset
move_chunk count p h = and_then (chunk_offset count p) λ offset.
    and_then (element_offset p.source_start offset p.width) λ source_offset.
      and_then (element_offset p.destination_start offset p.width) λ destination_offset.
        and_then (expect (checked_mul_u32 count p.width)) λ bytes.
          copy_payload_range h p.source source_offset p.destination destination_offset bytes

-- The body of the loop. Nothing is written but by the move and the counters.
unfoldable pub copy_chunk : ℕ → C (Unit {0})
unfolding move_chunk pass set_heap
copy_chunk count = do
  s ← gets (λ s. s)
  h ← lift (move_chunk count s.pending s.heap)
  set_heap h
  p ← lift (pass count s.pending)
  modify (λ t. record { pending = p; heap = t.heap })

-- The loop; a chunk has at least one element, so `left` bounds its rounds.
unfoldable pub copy_chunks : ℕ → ℕ → C (Unit {0})
unfolding copy_chunk
copy_chunks fuel zero = pure tt
copy_chunks zero (suc left) = lift panic
copy_chunks (suc fuel) (suc left) =
    copy_chunk (min (suc left) 256) >> copy_chunks fuel (suc left - min (suc left) 256)

unfoldable pub advance : ℕ → C (ℕ × Bool)
unfolding copy_chunks
advance budget = do
  p ← gets (λ s. s.pending)
  let used = min p.remaining budget
  copy_chunks used used
  rest ← gets (λ s. s.pending)
  pure (used, rest.remaining == 0)

-- `resume_pending_array_copy` in slice after slice: the elements copied in all of them.
unfoldable pub slices : List ℕ → C ℕ
unfolding advance
slices [] = pure 0
slices (budget ∷ budgets) = do
  progress ← advance budget
  used ← slices budgets
  pure (progress.0 + used)

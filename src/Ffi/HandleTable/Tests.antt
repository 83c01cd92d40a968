-- ===== src/Ffi/HandleTable/Tests.antt =====
-- Handles on concrete calls.
use compukter_vm.Prelude.{
  ◌↔◌, ℕ, ◌+◌, ◌≡◌, ◌⊎◌, refl, none, some, false, List, [], ◌∷◌, get_elem?, ok, err, arith,
}
use compukter_vm.Ffi.HandleTable
use compukter_vm.Ffi.HandleTable.{
  HandleTable, HandleError, Slot, default, new_cell, unlocked, stale, poisoned, busy, resolve,
  insert, with_cell, close, encode_handle, decode_handle, done, restored,
}
use compukter_vm.Ffi.HandleTable.Handles.{Generations, named_cell, insert-named, encode-decode_iff}
use compukter_vm.Ffi.HandleTable.Events.{Event, happens}
use compukter_vm.Ffi.HandleTable.Stale.{happens-stale}

-- The handle of the first slot in its first generation.
abbrev first : ℕ
first = 4294967297

-- The table with 7 in its first slot.
abbrev one : HandleTable ℕ
one = record {
  slots = (record { generation = 1; value = some 0 }) ∷ [];
  slots_broken = false;
  cells = new_cell 7 ∷ [];
}

insert-first : insert 7 default ≡ (ok first, one)
unfolding insert encode_handle
insert-first = refl

insert-named_example :
    (named_cell 8589934593 one ≡ none) × (get_elem? one.cells 0 ≡ some (new_cell 7))
unfolding named_cell resolve decode_handle
insert-named_example =
    insert-named 7 default one first 8589934593 no_slots insert-first (omega arith)
  where
    no_slots : Generations {T = ℕ} default
    no_slots i s g = absurd (ground arith)

encode-decode_iff_example : (encode_handle 0 1 ≡ ok first) ↔ (decode_handle first ≡ ok (0, 1))
encode-decode_iff_example = encode-decode_iff 0 1 first (omega arith) (omega arith) (omega arith)

-- The table once the handle was closed.
abbrev closed : HandleTable ℕ
closed = record {
  slots = (record { generation = 2; value = none }) ∷ [];
  slots_broken = false;
  cells = (record { lock = unlocked; content = none }) ∷ [];
}

close-first : close first one ≡ (ok tt, closed)
unfolding close decode_handle HandleTable.next_generation
close-first = refl

decode-first : decode_handle first ≡ ok (0, 1)
unfolding decode_handle
decode-first = refl

resolve-first : (resolve first one).0 ≡ ok 0
unfolding resolve decode_handle
resolve-first = refl

-- The slot is given out again, and the cell is entered by a thread that came late.
abbrev later : List (Event ℕ)
later = Event.insert 9 ∷ Event.enters 0 ∷ Event.leaves 0 (λ n. (some tt, n + 1)) ∷ []

happens-stale_example :
    ((resolve first (happens later closed)).0 ≡ err stale
      ⊎ (resolve first (happens later closed)).0 ≡ err poisoned)
    × ((with_cell (λ n. (some n, n)) 0 (happens later closed)).0 ≡ err stale
        ⊎ (with_cell (λ n. (some n, n)) 0 (happens later closed)).0 ≡ err busy
        ⊎ (with_cell (λ n. (some n, n)) 0 (happens later closed)).0 ≡ err poisoned)
happens-stale_example =
    happens-stale first 0 0 1 one closed later (λ n. (some n, n)) decode-first resolve-first
      close-first (omega arith)

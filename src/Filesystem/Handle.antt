-- ===== src/Filesystem/Handle.antt =====
-- src/filesystem/handle.rs: the bounded table of open files. A path is the list of its components
-- (src/filesystem/path.rs), each the bytes of a `str`.
pub mod Slots
pub mod Opening
pub mod Closing
pub mod Stale
mod Tests
use compukter_vm.Prelude.{
  ℕ, ◌+◌, ◌%◌, Option, none, some, Bool, true, false, List, [], ◌∷◌, ◌++◌, ◌&&◌, ◌||◌, length,
  get_elem?, set, position, count, Result, ok, err, ok_or, expect, Method, ◌>>=◌, ◌>>◌, pure, lift,
  gets, modify, guard, ltb, leb, ◌==◌, if◌then◌else◌, not, and_then,
}
use compukter_vm.Prelude.Word.{half_word, checked_add_u32}
use compukter_vm.Filesystem.Limits.{FileSystemError, quota_exceeded, stale_handle}

pub record FileHandle : Type 0 where
  pub slot : ℕ
  pub generation : ℕ

pub data OpenMode : Type 0 where
  read write read_write : OpenMode

pub record OpenFile : Type 0 where
  pub path : List (List ℕ)
  pub mode : OpenMode

-- `OpenMode::readable` and `OpenMode::writable`
unfoldable pub readable : OpenMode → Bool
readable read = true
readable read_write = true
readable write = false

unfoldable pub writable : OpenMode → Bool
writable write = true
writable read_write = true
writable read = false

pub record HandleSlot : Type 0 where
  pub generation : ℕ
  pub file : Option OpenFile
  pub retired : Bool

pub record HandleTable : Type 0 where
  pub maximum_handles : ℕ
  pub slots : List HandleSlot

abbrev pub M : Type 0 → Type 0
M = Method HandleTable FileSystemError

unfoldable pub new : ℕ → HandleTable
new maximum_handles = record { maximum_handles = maximum_handles; slots = [] }

abbrev pub is_open : HandleSlot → Bool
is_open slot = elim slot.file [ none ↦ false | some f ↦ true ]

-- The test of `find` in `open`.
abbrev pub is_free : HandleSlot → Bool
is_free entry = not (is_open entry) && not entry.retired

-- `self.slots[slot]`
abbrev pub slot_at : ℕ → M HandleSlot
slot_at slot t = (expect (get_elem? t.slots slot), t)

abbrev pub set_slot : ℕ → HandleSlot → HandleTable → HandleTable
set_slot slot entry t = record t { slots = set t.slots slot entry }

-- `open` with the slot that `find` gives.
unfoldable pub reuse : OpenFile → ℕ → M FileHandle
reuse file slot = do
  entry ← slot_at slot
  modify (set_slot slot (record entry { file = some file }))
  pure (record { slot = slot % half_word; generation = entry.generation })

unfoldable pub push : OpenFile → M FileHandle
push file = do
  slot ← gets (λ t. length t.slots)
  maximum ← gets (λ t. t.maximum_handles)
  guard (not (leb maximum slot || leb half_word slot)) quota_exceeded
  modify (λ t. record t {
    slots = t.slots ++ (record { generation = 1; file = some file; retired = false } ∷ []);
  })
  pure (record { slot = slot % half_word; generation = 1 })

unfoldable pub open_in : Option ℕ → OpenFile → M FileHandle
open_in (some slot) file = reuse file slot
open_in none file = push file

unfoldable pub open_file : OpenFile → M FileHandle
open_file file = do free ← gets (λ t. position is_free t.slots); open_in free file

unfoldable pub get : FileHandle → HandleTable → Result FileSystemError OpenFile
get handle t = and_then (ok_or (get_elem? t.slots handle.slot) stale_handle) λ slot.
    if slot.generation == handle.generation then ok_or slot.file stale_handle else err stale_handle

-- `slot.generation.checked_add(1)` or `retired`
unfoldable pub retire : Option ℕ → HandleSlot → HandleSlot
retire (some next) slot = record slot { file = none; generation = next }
retire none slot = record slot { file = none; retired = true }

unfoldable pub close : FileHandle → M (Unit {0})
close handle = do
  slots ← gets (λ t. t.slots)
  slot ← lift (ok_or (get_elem? slots handle.slot) stale_handle)
  guard ((slot.generation == handle.generation) && is_open slot) stale_handle
  modify (set_slot handle.slot (retire (checked_add_u32 slot.generation 1) slot))

unfoldable pub open_count : HandleTable → ℕ
open_count t = count is_open t.slots

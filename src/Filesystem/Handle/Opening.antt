-- ===== src/Filesystem/Handle/Opening.antt =====
-- src/filesystem/handle.rs: handles through calls of `open` and `close`.
use compukter_vm.Prelude.{
  ℕ, suc, ◌%◌, ◌≤◌, none, some, true, false, [], ◌∷◌, ◌++◌, length, get_elem?, position, Result, ok,
  err, ◌≡◌, refl, ◌≢◌, ◌⊎◌, inl, inr, arith, sym, ap, subst, Option-cases, Bool-cases,
  position-some, count-set, get_elem?-lt, length-set, leb, ◌||◌, get_elem?-set_self,
  get_elem?-set_ne, length-append,
}
use compukter_vm.Prelude.Word.{half_word}
use compukter_vm.Filesystem.Limits.{FileSystemError, quota_exceeded}
use compukter_vm.Filesystem.Handle.{
  FileHandle, OpenFile, HandleSlot, HandleTable, is_open, is_free, set_slot, reuse, push, open_in,
  open_file, get, open_count,
}
use compukter_vm.Filesystem.Handle.Slots.{
  Fits, get_elem?-append_lt, get_elem?-append_self, count-snoc, get-open, open-get, is_free-closed,
}

abbrev opened : OpenFile → HandleSlot
opened file = record { generation = 1; file = some file; retired = false }

abbrev reopened : OpenFile → HandleSlot → HandleSlot
reopened file e = record e { file = some file }

abbrev handle_of : ℕ → HandleSlot → FileHandle
handle_of slot e = record { slot = slot; generation = e.generation }

-- Every handle that was open still gives its file, and is not the handle `h`.
abbrev pub Keeps : FileHandle → HandleTable → HandleTable → Type 0
Keeps h t t' = (h' : FileHandle) (g : OpenFile) → get h' t ≡ ok g → (h' ≢ h) × (get h' t' ≡ ok g)

-- A new handle for `file`, in a free entry, which disturbs no other.
abbrev pub Opened : OpenFile → HandleTable → FileHandle → HandleTable → Type 0
Opened file t h t' =
    (get h t' ≡ ok file)
    × (open_count t' ≡ suc (open_count t))
    × (length t'.slots ≤ t.maximum_handles ⊎ length t'.slots ≤ length t.slots)
    × Fits t'
    × Keeps h t t'

abbrev pub Full : HandleTable → Type 0
Full t =
    (position is_free t.slots ≡ none)
    × (t.maximum_handles ≤ length t.slots ⊎ half_word ≤ length t.slots)

abbrev pub Opens : OpenFile → HandleTable → Result FileSystemError FileHandle × HandleTable → Type 0
Opens file t out =
    ((h : FileHandle) × (t' : HandleTable) × (out ≡ (ok h, t')) × Opened file t h t')
    ⊎ (Full t × (out ≡ (err quota_exceeded, t)))

module _ (file : OpenFile) (t : HandleTable) (fits : Fits t) where
  module _ (slot : ℕ) (e : HandleSlot) (g : get_elem? t.slots slot ≡ some e)
      (free : is_free e ≡ true) where
    -- An open handle stands elsewhere.
    reuse-other :
        (i : ℕ) (e' : HandleSlot) (f : OpenFile)
        → get_elem? t.slots i ≡ some e'
        → e'.file ≡ some f
        → slot ≢ i
    reuse-other i e' f g' file' q =
        let (closed, kept) = is_free-closed e free in cc (q, g, g', closed, file')

    reuse-Keeps : Keeps (handle_of slot e) t (set_slot slot (reopened file e) t)
    reuse-Keeps h' f old =
        let (e', g', same, file') = get-open h' t f old in
        let (closed, kept) = is_free-closed e free in
        let other = reuse-other h'.slot e' f g' file' in
        (
          (λ q. other (sym (ap (λ h. h.slot) q))),
          open-get h' (set_slot slot (reopened file e) t) f e'
              (subst (λ o. o ≡ some e')
                (sym (get_elem?-set_ne t.slots slot h'.slot (reopened file e) other)) g')
              same file',
        )

    reuse-Opens : Opens file t (reuse file slot t)
    unfolding reuse get open_count
    reuse-Opens =
        let lt = get_elem?-lt t.slots slot g in
        let (closed, kept) = is_free-closed e free in
        let small : slot % half_word ≡ slot = omega arith in
        let h = handle_of slot e in
        let t' = set_slot slot (reopened file e) t in
        let now = get_elem?-set_self t.slots slot (reopened file e) lt in
        let size = length-set t.slots slot (reopened file e) in
        inl (
          h,
          t',
          ground arith,
          (
            open-get h t' file (reopened file e) now refl refl,
            ground (arith, count-set is_open t.slots slot (reopened file e) g),
            inr (omega arith),
            omega arith,
            reuse-Keeps,
          ),
        )

  module _ (none_free : position is_free t.slots ≡ none) where
    abbrev next_handle : FileHandle
    next_handle = record { slot = length t.slots; generation = 1 }

    abbrev pushed : HandleTable
    pushed = record t { slots = t.slots ++ opened file ∷ [] }

    push-Keeps : Keeps next_handle t pushed
    push-Keeps h' f old =
        let (e', g', same, file') = get-open h' t f old in
        let lt = get_elem?-lt t.slots h'.slot g' in
        (
          (λ q. (let i : h'.slot ≡ length t.slots = ap (λ h. h.slot) q in omega arith)),
          open-get h' pushed f e' (get_elem?-append_lt t.slots (opened file ∷ []) h'.slot g') same
              file',
        )

    push-Opens : Opens file t (push file t)
    unfolding push get open_count
    push-Opens =
        elim (Bool-cases
          (leb t.maximum_handles (length t.slots) || leb half_word (length t.slots))) [
            | inl full ↦ inr ((none_free, ground arith), ground arith)
            | inr room ↦
                let small : length t.slots % half_word ≡ length t.slots = ground arith in
                let now = get_elem?-append_self t.slots (opened file) in
                let size = length-append t.slots (opened file ∷ []) in
                inl (
                  next_handle,
                  pushed,
                  ground arith,
                  (
                    open-get next_handle pushed file (opened file) now refl refl,
                    ground (arith, count-snoc is_open t.slots (opened file)),
                    inl (ground arith),
                    ground arith,
                    push-Keeps,
                  ),
                )
          ]

-- On a table of at most 2^32 entries `open` gives a new handle for the file in a free entry, one more is open, no other handle is
-- disturbed or equal to it, and the table does not outgrow its bound; or it is full, every entry
-- being open or retired, and `open` fails without a change.
pub open_file-Opens : (file : OpenFile) (t : HandleTable) → Fits t → Opens file t (open_file file t)
unfolding open_file open_in
open_file-Opens file t fits = elim (Option-cases (position is_free t.slots)) [
  | inl n ↦ subst (λ o. Opens file t (open_in o file t)) (sym n) (push-Opens file t fits n)
  | inr (slot, found) ↦
      let (e, g, free) = position-some is_free t.slots slot found in
      subst (λ o. Opens file t (open_in o file t)) (sym found)
        (reuse-Opens file t fits slot e g free)
]

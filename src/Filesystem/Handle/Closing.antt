-- ===== src/Filesystem/Handle/Closing.antt =====
-- src/filesystem/handle.rs: a handle that was closed, whatever happens to the table afterwards.
use compukter_vm.Prelude.{
  ℕ, suc, ◌<◌, Option, none, some, true, get_elem?, Result, ok, err, ◌≡◌, refl, ◌≢◌, ◌⊎◌, inl, inr,
  arith, sym, subst, Option-cases, Bool-cases, count-set, get_elem?-lt, ◌==◌, get_elem?-set_self,
  get_elem?-set_ne,
}
use compukter_vm.Prelude.Word.{checked_add_u32}
use compukter_vm.Filesystem.Limits.{FileSystemError, stale_handle}
use compukter_vm.Filesystem.Handle.{
  FileHandle, OpenFile, HandleSlot, HandleTable, is_open, set_slot, get, retire, close, open_count,
}
use compukter_vm.Filesystem.Handle.Slots.{Dead, get-open, open-get}

-- What `close` leaves: the entry has no file and a later generation, or is retired.
pub closed_entry :
    (e : HandleSlot) (next : Option ℕ)
    → next ≡ checked_add_u32 e.generation 1
    → ((retire next e).file ≡ none)
      × ((e.generation < (retire next e).generation) ⊎ ((retire next e).retired ≡ true))
unfolding retire
closed_entry e none q = (refl, inr refl)
closed_entry e (some next) q = (refl, inl (ground arith))

abbrev pub after : HandleTable → FileHandle → HandleSlot → HandleTable
after t h e = set_slot h.slot (retire (checked_add_u32 e.generation 1) e) t

module _ (h : FileHandle) (t : HandleTable) where
  -- The call's own handle names no open file.
  pub close-refuses : get h t ≡ err stale_handle → close h t ≡ (err stale_handle, t)
  unfolding get close
  close-refuses bad = elim (Option-cases (get_elem? t.slots h.slot)) [
    | inl n ↦ ground arith
    | inr (e, g) ↦ elim (Option-cases e.file) [ inl n ↦ ground arith | inr (f, s) ↦ ground arith ]
  ]

  pub close-works :
      (f : OpenFile) (e : HandleSlot)
      → get_elem? t.slots h.slot ≡ some e
      → e.generation ≡ h.generation
      → e.file ≡ some f
      → close h t ≡ (ok tt, after t h e)
  unfolding close
  close-works f e g same file = ground arith

  pub get-cases : (get h t ≡ err stale_handle) ⊎ ((f : OpenFile) × (get h t ≡ ok f))
  unfolding get
  get-cases = elim (Option-cases (get_elem? t.slots h.slot)) [
    | inl n ↦ inl (ground arith)
    | inr (e, g) ↦ elim (Option-cases e.file) [
      | inl n ↦ inl (ground arith)
      | inr (f, s) ↦ elim (Bool-cases (e.generation == h.generation)) [
        | inl q ↦ inr (f, ground arith)
        | inr q ↦ inl (ground arith)
      ]
    ]
  ]

-- Every other open handle still gives its file.
abbrev pub KeepsOthers : FileHandle → HandleTable → HandleTable → Type 0
KeepsOthers h t t' = (h' : FileHandle) (g : OpenFile) → get h' t ≡ ok g → h' ≢ h → get h' t' ≡ ok g

abbrev pub Closed : FileHandle → HandleTable → HandleTable → Type 0
Closed h t t' = Dead h t' × (open_count t ≡ suc (open_count t')) × KeepsOthers h t t'

abbrev pub Closes :
    FileHandle → HandleTable → Result FileSystemError (Unit {0}) × HandleTable → Type 0
Closes h t out =
    ((f : OpenFile) × (t' : HandleTable) × (get h t ≡ ok f) × (out ≡ (ok tt, t')) × Closed h t t')
    ⊎ ((get h t ≡ err stale_handle) × (out ≡ (err stale_handle, t)))

module _ (h : FileHandle) (t : HandleTable) (f : OpenFile) (e : HandleSlot)
    (g : get_elem? t.slots h.slot ≡ some e) (same : e.generation ≡ h.generation)
    (file : e.file ≡ some f) where
  close-Dead : Dead h (after t h e)
  close-Dead =
      let now =
        get_elem?-set_self t.slots h.slot (retire (checked_add_u32 e.generation 1) e)
          (get_elem?-lt t.slots h.slot g) in
      let (gone, later) = closed_entry e (checked_add_u32 e.generation 1) refl in
      (
        retire (checked_add_u32 e.generation 1) e,
        now,
        elim later [ inl less ↦ inl (omega arith) | inr r ↦ inr (r, gone) ],
      )

  close-count : open_count t ≡ suc (open_count (after t h e))
  unfolding open_count
  close-count =
      let (gone, later) = closed_entry e (checked_add_u32 e.generation 1) refl in
      ground (arith, count-set is_open t.slots h.slot (retire (checked_add_u32 e.generation 1) e) g)

  close-KeepsOthers : KeepsOthers h t (after t h e)
  close-KeepsOthers h' f' old other =
      let (e', g', same', file') = get-open h' t f' old in
      let apart = (λ (q : h.slot ≡ h'.slot). other (apart_of h' e' g' same' q)) in
      open-get h' (after t h e) f' e'
        (subst (λ o. o ≡ some e')
          (sym (
            get_elem?-set_ne t.slots h.slot h'.slot (retire (checked_add_u32 e.generation 1) e)
              apart))
          g')
        same' file'
    where
      apart_of :
          (h' : FileHandle) (e' : HandleSlot)
          → get_elem? t.slots h'.slot ≡ some e'
          → e'.generation ≡ h'.generation
          → h.slot ≡ h'.slot
          → h' ≡ h
      apart_of h' e' g' same' q = cc (q, g, g', same, same')

-- `close` succeeds exactly on a handle that `get` accepts; then the handle's entry has a later generation or is retired, one entry less is open
-- and every other open handle keeps its file. On any other it fails and changes nothing.
pub close-Closes : (h : FileHandle) (t : HandleTable) → Closes h t (close h t)
close-Closes h t = elim (get-cases h t) [
  | inl bad ↦ inr (bad, close-refuses h t bad)
  | inr (f, good) ↦
      let (e, g, same, file) = get-open h t f good in
      inl (
        f,
        after t h e,
        good,
        close-works h t f e g same file,
        (
          close-Dead h t f e g same file,
          close-count h t f e g same file,
          close-KeepsOthers h t f e g same file,
        ),
      )
]

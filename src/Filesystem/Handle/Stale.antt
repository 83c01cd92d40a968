-- ===== src/Filesystem/Handle/Stale.antt =====
-- src/filesystem/handle.rs: a closed handle stays refused, whatever is opened and closed afterwards.
use compukter_vm.Prelude.{
  ℕ, ◌≤◌, ◌<◌, Option, none, some, true, false, List, [], ◌∷◌, length, get_elem?, position, ok, err,
  ◌≡◌, refl, ◌⊎◌, inl, inr, arith, sym, ap, subst, ◌∙◌, Option-cases, Bool-cases, position-some,
  get_elem?-set, get_elem?-lt, leb, ◌==◌, ◌||◌,
}
use compukter_vm.Prelude.Word.{half_word, checked_add_u32}
use compukter_vm.Filesystem.Limits.{stale_handle}
use compukter_vm.Filesystem.Handle.{
  FileHandle, OpenFile, HandleSlot, HandleTable, is_free, set_slot, reuse, push, open_in, open_file,
  get, retire, close,
}
use compukter_vm.Filesystem.Handle.Slots.{
  Dead, get_elem?-append_lt, get-open, Dead-refused, is_free-closed,
}
use compukter_vm.Filesystem.Handle.Closing.{
  close-Closes, closed_entry, close-works, close-refuses, get-cases,
}

pub data Op : Type 0 where
  opens : OpenFile → Op
  closes : FileHandle → Op

abbrev pub step : Op → HandleTable → HandleTable
step (opens file) t = (open_file file t).1
step (closes h) t = (close h t).1

abbrev pub run : HandleTable → List Op → HandleTable
run t [] = t
run t (op ∷ ops) = run (step op t) ops

retire_le :
    (e : HandleSlot) (next : Option ℕ)
    → next ≡ checked_add_u32 e.generation 1
    → e.generation ≤ (retire next e).generation
unfolding retire
retire_le e none q = omega arith
retire_le e (some next) q = ground arith

module _ (h : FileHandle) (t : HandleTable) where
  -- A write of an entry that is no older, and not into a retired one, keeps a handle dead.
  write-Dead :
      (slot : ℕ) (old new : HandleSlot)
      → get_elem? t.slots slot ≡ some old
      → old.generation ≤ new.generation
      → ((old.retired ≡ true) → (old.file ≡ none) → ⊥)
      → Dead h t
      → Dead h (set_slot slot new t)
  write-Dead slot old new g no_older live (e, found, d) = elim (Bool-cases (slot == h.slot)) [
    | inl q ↦ (
      new,
      ground (arith, get_elem?-set t.slots slot h.slot new (get_elem?-lt t.slots slot g)),
      inl (newer (ground arith) d),
    )
    | inr q ↦
        (e, ground (arith, get_elem?-set t.slots slot h.slot new (get_elem?-lt t.slots slot g)), d)
  ]
    where
      newer :
          slot ≡ h.slot
          → ((h.generation < e.generation) ⊎ ((e.retired ≡ true) × (e.file ≡ none)))
          → h.generation < new.generation
      newer q (inl less) = ground arith
      newer q (inr (r, n)) = absurd (live (ground arith) (ground arith))

  reuse-Dead :
      (file : OpenFile) (slot : ℕ)
      → position is_free t.slots ≡ some slot
      → Dead h t
      → Dead h (reuse file slot t).1
  unfolding reuse
  reuse-Dead file slot found dead =
      let (e, g, free) = position-some is_free t.slots slot found in
      let (none_open, kept) = is_free-closed e free in
      let q : (reuse file slot t).1 ≡ set_slot slot (record e { file = some file }) t =
        ground arith in
      subst (Dead h) (sym q) (
        write-Dead slot e (record e { file = some file }) g (omega arith) (λ r n. cc (r, kept))
          dead)

  push-Dead : (file : OpenFile) → Dead h t → Dead h (push file t).1
  unfolding push
  push-Dead file (e, found, d) =
      elim (Bool-cases (leb t.maximum_handles (length t.slots) || leb half_word (length t.slots))) [
        | inl full ↦
            let q : (push file t).1 ≡ t = ground arith in subst (Dead h) (sym q) (e, found, d)
        | inr room ↦ (
          e,
          ground (
            arith,
            get_elem?-append_lt t.slots
                (record { generation = 1; file = some file; retired = false } ∷ []) h.slot found,
          ),
          d,
        )
      ]

  close-keeps_Dead : (other : FileHandle) → Dead h t → Dead h (close other t).1
  close-keeps_Dead other dead = elim (get-cases other t) [
    | inl bad ↦ subst (λ out. Dead h (out.1)) (sym (close-refuses other t bad)) dead
    | inr (f, good) ↦
        let (e, g, same, file) = get-open other t f good in
        let (gone, later) = closed_entry e (checked_add_u32 e.generation 1) refl in
        subst (λ out. Dead h (out.1)) (sym (close-works other t f e g same file))
          (write-Dead other.slot e (retire (checked_add_u32 e.generation 1) e) g
            (retire_le e (checked_add_u32 e.generation 1) refl) (λ r n. cc (n, file)) dead)
  ]

  open-keeps_Dead : (file : OpenFile) → Dead h t → Dead h (open_file file t).1
  unfolding open_file open_in
  open-keeps_Dead file dead = elim (Option-cases (position is_free t.slots)) [
    | inl n ↦ subst (λ o. Dead h (open_in o file t).1) (sym n) (push-Dead file dead)
    | inr (slot, found) ↦
        subst (λ o. Dead h (open_in o file t).1) (sym found) (reuse-Dead file slot found dead)
  ]

run-Dead : (h : FileHandle) (t : HandleTable) (ops : List Op) → Dead h t → Dead h (run t ops)
run-Dead h t [] dead = dead
run-Dead h t (opens file ∷ ops) dead =
    run-Dead h (open_file file t).1 ops (open-keeps_Dead h t file dead)
run-Dead h t (closes other ∷ ops) dead =
    run-Dead h (close other t).1 ops (close-keeps_Dead h t other dead)

-- A handle whose `close` succeeded is refused as stale after any further calls of `open` and `close`,
-- even when its slot is used again.
pub close-stale :
    (h : FileHandle) (t t' : HandleTable) (ops : List Op)
    → close h t ≡ (ok tt, t')
    → get h (run t' ops) ≡ err stale_handle
close-stale h t t' ops e = elim (close-Closes h t) [
  | inl (f, t'', good, e', (dead, counted, others)) ↦
      Dead-refused h (run t' ops)
        (run-Dead h t' ops (subst (Dead h) (ap (λ out. out.1) (sym e' ∙ e)) dead))
  | inr (bad, e') ↦ absurd (cc (e, e'))
]

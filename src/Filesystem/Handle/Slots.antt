-- ===== src/Filesystem/Handle/Slots.antt =====
-- src/filesystem/handle.rs: what one call of `open` or `close` does to every handle.
use compukter_vm.Prelude.{
  ℕ, zero, suc, ◌+◌, ◌≤◌, ◌<◌, none, some, Bool, true, false, List, [], ◌∷◌, ◌++◌, length,
  get_elem?, count, weight, ok, err, ◌≡◌, refl, ◌⊎◌, inl, inr, arith, Option-cases,
}
use compukter_vm.Prelude.Word.{half_word}
use compukter_vm.Filesystem.Limits.{stale_handle}
use compukter_vm.Filesystem.Handle.{FileHandle, OpenFile, HandleSlot, HandleTable, is_free, get}

-- The table stays within the numbers of `u32`: what `as u32` and the generations need.
abbrev pub Fits : HandleTable → Type 0
Fits t = length t.slots ≤ half_word

-- The handle names an entry that will never again be open under its generation.
abbrev pub Dead : FileHandle → HandleTable → Type 0
Dead h t =
    (e : HandleSlot) × (get_elem? t.slots h.slot ≡ some e)
    × ((h.generation < e.generation) ⊎ ((e.retired ≡ true) × (e.file ≡ none)))

pub get_elem?-append_lt {ℓ} :
    {A : Type ℓ} (xs ys : List A) (i : ℕ) {a : A}
    → get_elem? xs i ≡ some a
    → get_elem? (xs ++ ys) i ≡ some a
get_elem?-append_lt [] ys i e = ground arith
get_elem?-append_lt (x ∷ xs) ys zero e = e
get_elem?-append_lt (x ∷ xs) ys (suc i) e = get_elem?-append_lt xs ys i e

pub get_elem?-append_self {ℓ} :
    {A : Type ℓ} (xs : List A) (a : A) → get_elem? (xs ++ a ∷ []) (length xs) ≡ some a
get_elem?-append_self [] a = refl
get_elem?-append_self (x ∷ xs) a = get_elem?-append_self xs a

pub count-snoc {ℓ} :
    {A : Type ℓ} (p : A → Bool) (xs : List A) (a : A)
    → count p (xs ++ a ∷ []) ≡ count p xs + weight (p a)
count-snoc p [] a = ground arith
count-snoc p (x ∷ xs) a = ground (arith, count-snoc p xs a)

pub get-open :
    (h : FileHandle) (t : HandleTable) (f : OpenFile)
    → get h t ≡ ok f
    → (e : HandleSlot) × (get_elem? t.slots h.slot ≡ some e)
      × (e.generation ≡ h.generation)
      × (e.file ≡ some f)
unfolding get
get-open h t f g = elim (Option-cases (get_elem? t.slots h.slot)) [
  | inl n ↦ absurd (ground arith)
  | inr (e, found) ↦ (e, found, ground arith, ground arith)
]

pub open-get :
    (h : FileHandle) (t : HandleTable) (f : OpenFile) (e : HandleSlot)
    → get_elem? t.slots h.slot ≡ some e
    → e.generation ≡ h.generation
    → e.file ≡ some f
    → get h t ≡ ok f
unfolding get
open-get h t f e found same file = ground arith

-- A dead handle is refused.
pub Dead-refused : (h : FileHandle) (t : HandleTable) → Dead h t → get h t ≡ err stale_handle
unfolding get
Dead-refused h t (e, found, inl less) = ground arith
Dead-refused h t (e, found, inr (r, n)) = ground arith

-- A free entry is not open and not retired.
pub is_free-closed : (e : HandleSlot) → is_free e ≡ true → (e.file ≡ none) × (e.retired ≡ false)
is_free-closed e h = elim (Option-cases e.file) [
  | inl n ↦ (n, ground arith)
  | inr (f, s) ↦ absurd (ground arith)
]

-- ===== src/Filesystem/Codec/Reads.antt =====
-- src/filesystem/persistence/codec.rs: integers and byte strings, read at a place in the buffer.
use mathlib.Core.List.{append_assoc}
use compukter_vm.Prelude.{
  ℕ, zero, suc, ◌+◌, ◌-◌, ◌/◌, ◌^◌, ◌<◌, some, true, List, [], ◌∷◌, ◌++◌, ◌≡◌, refl, sym, ap, ap₂,
  subst, arith, length, length-append, ok, leb,
}
use compukter_vm.Prelude.Word.{word, half_word, checked_add}
use compukter_vm.Filesystem.Codec.{
  to_le_bytes, from_le_bytes, Cursor, take, drop, get_range, exact, read_u8, read_u16, read_u32,
  read_u64,
}

pub from-to_le_bytes :
    (width value : ℕ) → value < 256 ^ width → from_le_bytes (to_le_bytes width value) ≡ value
unfolding from_le_bytes to_le_bytes
from-to_le_bytes zero value h = omega arith
from-to_le_bytes (suc width) value h =
    let small : value / 256 < 256 ^ width = omega arith in
    omega (arith, from-to_le_bytes width (value / 256) small)

length-to_le_bytes : (width value : ℕ) → length (to_le_bytes width value) ≡ width
unfolding to_le_bytes
length-to_le_bytes zero value = refl
length-to_le_bytes (suc width) value = ap suc (length-to_le_bytes width (value / 256))

take-append : (xs ys : List ℕ) → take (length xs) (xs ++ ys) ≡ some xs
take-append [] ys = refl
take-append (x ∷ xs) ys = rw (take-append xs ys) refl

drop-append : (xs ys : List ℕ) → drop (length xs) (xs ++ ys) ≡ ys
drop-append [] ys = refl
drop-append (x ∷ xs) ys = drop-append xs ys

-- A cursor behind `before`, in front of `rest`.
abbrev pub at : List ℕ → List ℕ → Cursor
at before rest = record { bytes = before ++ rest; offset = length before }

-- The buffer is no longer than a `usize` counts.
abbrev pub Fits : List ℕ → Type 0
Fits bytes = length bytes < word

module _ (before field rest : List ℕ) where
  get_range-field :
      get_range (before ++ (field ++ rest)) (length before) (length before + length field)
      ≡ some field
  get_range-field =
      let e : leb (length before) (length before + length field) ≡ true = ground arith in
      let d : (length before + length field) - length before ≡ length field = omega arith in
      rw (e, d, drop-append before (field ++ rest)) (take-append field rest)

  at-past :
      (record { bytes = before ++ (field ++ rest); offset = length before + length field })
      ≡ at (before ++ field) rest
  at-past =
      ap₂ (λ b o. record { bytes = b; offset = o }) (sym (append_assoc before field rest))
        (sym (length-append before field))

  pub exact-field :
      Fits (before ++ (field ++ rest))
      → exact (length field) (at before (field ++ rest)) ≡ (ok field, at (before ++ field) rest)
  unfolding exact
  exact-field fits =
      let e : checked_add (length before) (length field) ≡ some (length before + length field) =
        ground (arith, length-append before (field ++ rest), length-append field rest) in
      rw (e, get_range-field) (ap (λ c. (ok field, c)) at-past)

module _ (before rest : List ℕ) (value : ℕ) where
  abbrev le : ℕ → List ℕ
  le width = to_le_bytes width value

  exact-le :
      (width : ℕ)
      → Fits (before ++ (le width ++ rest))
      → exact width (at before (le width ++ rest)) ≡ (ok (le width), at (before ++ le width) rest)
  exact-le width fits =
      subst
        (λ n.
          exact n (at before (le width ++ rest)) ≡ (ok (le width), at (before ++ le width) rest))
        (length-to_le_bytes width value) (exact-field before (le width) rest fits)

  pub read-u16 :
      value < 65536
      → Fits (before ++ (le 2 ++ rest))
      → read_u16 (at before (le 2 ++ rest)) ≡ (ok value, at (before ++ le 2) rest)
  unfolding read_u16
  read-u16 h fits = rw (exact-le 2 fits, from-to_le_bytes 2 value h) refl

  pub read-u32 :
      value < half_word
      → Fits (before ++ (le 4 ++ rest))
      → read_u32 (at before (le 4 ++ rest)) ≡ (ok value, at (before ++ le 4) rest)
  unfolding read_u32
  read-u32 h fits = rw (exact-le 4 fits, from-to_le_bytes 4 value h) refl

  pub read-u64 :
      value < word
      → Fits (before ++ (le 8 ++ rest))
      → read_u64 (at before (le 8 ++ rest)) ≡ (ok value, at (before ++ le 8) rest)
  unfolding read_u64
  read-u64 h fits = rw (exact-le 8 fits, from-to_le_bytes 8 value h) refl

  pub read-u8 :
      Fits (before ++ (value ∷ [] ++ rest))
      → read_u8 (at before (value ∷ [] ++ rest)) ≡ (ok value, at (before ++ value ∷ []) rest)
  unfolding read_u8
  read-u8 fits = rw (exact-field before (value ∷ []) rest fits) refl

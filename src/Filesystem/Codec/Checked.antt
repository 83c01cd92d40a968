-- ===== src/Filesystem/Codec/Checked.antt =====
-- src/filesystem/persistence/codec.rs: records that end in their digest.
use compukter_vm.Prelude.{
  ℕ, zero, suc, ◌+◌, ◌-◌, ◌≤◌, ◌<◌, some, true, false, List, [], ◌∷◌, ◌++◌, ◌≡◌, refl, ◌∙◌, sym, ap,
  subst, arith, length, length-append, ok, ltb, Option-cases, inl, inr,
}
use compukter_vm.Prelude.Word.{word, checked_add}
use compukter_vm.Filesystem.Path.{str_eq}
use compukter_vm.Filesystem.Path.Bytes.{str_eq_refl, str_eq-eq}
use compukter_vm.Filesystem.Codec.{
  digest_bytes, Cursor, plain, take, drop, finish_checked, verified,
}

take-prefix : (xs ys : List ℕ) (n : ℕ) → n ≡ length xs → take n (xs ++ ys) ≡ some xs
take-prefix [] ys zero e = refl
take-prefix [] ys (suc n) e = absurd (omega arith)
take-prefix (x ∷ xs) ys zero e = absurd (omega arith)
take-prefix (x ∷ xs) ys (suc n) e = rw (take-prefix xs ys n (omega arith)) refl

drop-prefix : (xs ys : List ℕ) (n : ℕ) → n ≡ length xs → drop n (xs ++ ys) ≡ ys
drop-prefix [] ys zero e = refl
drop-prefix [] ys (suc n) e = absurd (omega arith)
drop-prefix (x ∷ xs) ys zero e = absurd (omega arith)
drop-prefix (x ∷ xs) ys (suc n) e = drop-prefix xs ys n (omega arith)

take-drop : (n : ℕ) (bs p : List ℕ) → take n bs ≡ some p → (p ++ drop n bs ≡ bs) × (length p ≡ n)
take-drop zero bs p e =
    let q : p ≡ [] = ground arith in
    subst (λ p. (p ++ bs ≡ bs) × (length p ≡ 0)) (sym q) (refl, refl)
take-drop (suc n) [] p e = absurd (ground arith)
take-drop (suc n) (b ∷ bs) p e = elim (Option-cases (take n bs)) [
  | inl q ↦ absurd (ground arith)
  | inr (t, q) ↦
      let (w, l) = take-drop n bs t q in
      let r : p ≡ b ∷ t = ground arith in
      subst (λ p. (p ++ drop n bs ≡ b ∷ bs) × (length p ≡ suc n)) (sym r)
        (ap (λ x. b ∷ x) w, ap suc l)
]

-- A digest has 32 bytes, as `Sha256::digest` does.
abbrev pub IsDigest : (List ℕ → List ℕ) → Type 0
IsDigest digest = (bytes : List ℕ) → length (digest bytes) ≡ digest_bytes

module _ (digest : List ℕ → List ℕ) (wide : IsDigest digest) (maximum : ℕ) (bytes : List ℕ) where
  -- With a digest of 32 bytes, a finished record is accepted under the same maximum, and gives a cursor at the start of its payload.
  pub verified-finish_checked :
      (payload : List ℕ)
      → finish_checked digest maximum payload ≡ ok bytes
      → verified digest bytes maximum ≡ ok (plain payload)
  unfolding finish_checked verified plain
  verified-finish_checked payload h =
      let whole : payload ++ digest payload ≡ bytes = ground arith in
      let size : length payload + digest_bytes ≤ maximum = ground arith in
      let total : length (payload ++ digest payload) ≡ length payload + digest_bytes =
        omega (arith, length-append payload (digest payload), wide payload) in
      let end : length (payload ++ digest payload) - digest_bytes ≡ length payload = omega arith in
      let large : ltb maximum (length (payload ++ digest payload)) ≡ false = ground arith in
      let small : ltb (length (payload ++ digest payload)) digest_bytes ≡ false = ground arith in
      subst (λ b. verified digest b maximum ≡ ok (plain payload)) whole
        (rw
          (
            verified,
            large,
            small,
            take-prefix payload (digest payload) (length (payload ++ digest payload) - digest_bytes)
                end,
            drop-prefix payload (digest payload) (length (payload ++ digest payload) - digest_bytes)
                end,
            str_eq_refl (digest payload),
          )
          refl)

  finish-whole :
      (p : List ℕ)
      → p ++ digest p ≡ bytes
      → length p + digest_bytes ≡ length bytes
      → length bytes < word
      → length bytes ≤ maximum
      → finish_checked digest maximum p ≡ ok bytes
  unfolding finish_checked
  finish-whole p whole l fits small =
      let e : checked_add (length p) digest_bytes ≡ some (length p + digest_bytes) = ground arith in
      let f : ltb maximum (length p + digest_bytes) ≡ false = ground arith in
      rw (e, f) (ap ok whole)

  -- A record that fits a `usize` and is accepted is what finishing its payload gives: its last 32 bytes are the digest of
  -- the others, and the cursor stands at the start of these.
  pub finish_checked-verified :
      (c : Cursor)
      → length bytes < word
      → verified digest bytes maximum ≡ ok c
      → (c ≡ plain c.bytes) × (finish_checked digest maximum c.bytes ≡ ok bytes)
  unfolding finish_checked verified plain
  finish_checked-verified c fits h =
      let n = length bytes - digest_bytes in
      elim (Option-cases (take n bytes)) [
        | inl q ↦ absurd (ground arith)
        | inr (p, q) ↦
            let (w, l) = take-drop n bytes p q in
            let same : str_eq (digest p) (drop n bytes) ≡ true = ground arith in
            let d : digest p ≡ drop n bytes = str_eq-eq (digest p) (drop n bytes) same in
            let r : c ≡ record { bytes = p; offset = 0 } = ground arith in
            let whole : p ++ digest p ≡ bytes = ap (λ x. p ++ x) d ∙ w in
            let large : digest_bytes ≤ length bytes = ground arith in
            let small : length bytes ≤ maximum = ground arith in
            subst (λ c. (c ≡ plain c.bytes) × (finish_checked digest maximum c.bytes ≡ ok bytes))
              (sym r) (refl, finish-whole p whole (omega (arith, l)) fits small)
      ]

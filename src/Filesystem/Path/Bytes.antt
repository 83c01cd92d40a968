-- ===== src/Filesystem/Path/Bytes.antt =====
-- src/filesystem/path.rs: strings, and splitting at `/` against writing with `/`.
use compukter_vm.Prelude.{
  ℕ, ◌+◌, Bool, true, false, List, [], ◌∷◌, ◌++◌, ◌||◌, length, any, All, ◌≡◌, refl, ◌≢◌, inl, inr,
  arith, ap, ap₂, Bool-cases, ◌==◌, length-append,
}
use compukter_vm.Filesystem.Path.{
  Str, VirtualPath, str_eq, slash, ends_with_slash, split, fmt_rest, fmt, total_len, encoded_len,
}

pub str_eq-eq : (a b : Str) → str_eq a b ≡ true → a ≡ b
str_eq-eq [] [] h = refl
str_eq-eq [] (b ∷ bs) h = absurd (ground arith)
str_eq-eq (a ∷ xs) [] h = absurd (ground arith)
str_eq-eq (a ∷ xs) (b ∷ bs) h = ap₂ (λ x y. x ∷ y) (ground arith) (str_eq-eq xs bs (ground arith))

pub str_eq_refl : (a : Str) → str_eq a a ≡ true
str_eq_refl [] = refl
str_eq_refl (a ∷ xs) = ground (arith, str_eq_refl xs)

abbrev pub NoSlash : Str → Type 0
NoSlash = All (λ b. b ≢ slash)

abbrev pub NoNul : Str → Type 0
NoNul = All (λ b. b ≢ 0)

pub split-fmt_rest :
    (c : Str) (cs : List Str) → NoSlash c → All NoSlash cs → split (c ++ fmt_rest cs) ≡ c ∷ cs
split-fmt_rest [] [] h k = refl
split-fmt_rest [] (d ∷ ds) h k = ap (λ x. [] ∷ x) (split-fmt_rest d ds k.0 k.1)
split-fmt_rest (b ∷ bs) cs h k = ground (arith, split-fmt_rest bs cs h.1 k)

-- `split` gives at least one component, none with a `/`, and writing them gives the string back.
pub fmt_rest-split :
    (s : Str)
    → (c : Str) × (cs : List Str) × (split s ≡ c ∷ cs)
      × (c ++ fmt_rest cs ≡ s)
      × NoSlash c
      × All NoSlash cs
fmt_rest-split [] = ([], [], refl, refl, tt, tt)
fmt_rest-split (b ∷ bs) =
    let (c, cs, e, w, n, ns) = fmt_rest-split bs in
    elim (Bool-cases (b == slash)) [
      | inl q ↦ ([], c ∷ cs, ground arith, ap₂ (λ x y. x ∷ y) (ground arith) w, tt, (n, ns))
      | inr q ↦ (b ∷ c, cs, ground arith, ap (λ x. b ∷ x) w, ((λ z. ground arith), n), ns)
    ]

pub any-append {ℓ} :
    {A : Type ℓ} (p : A → Bool) (xs ys : List A) → any p (xs ++ ys) ≡ (any p xs || any p ys)
any-append p [] ys = refl
any-append p (x ∷ xs) ys = ground (arith, any-append p xs ys)

pub NoNul-any : (s : Str) → NoNul s → any (λ b. b == 0) s ≡ false
NoNul-any [] h = refl
NoNul-any (b ∷ bs) h = ground (arith, NoNul-any bs h.1, h.0)

pub any-NoNul : (s : Str) → any (λ b. b == 0) s ≡ false → NoNul s
any-NoNul [] h = tt
any-NoNul (b ∷ bs) h = ((λ z. ground arith), any-NoNul bs (ground arith))

pub NoNul-left : (xs ys : Str) → NoNul (xs ++ ys) → NoNul xs
NoNul-left [] ys h = tt
NoNul-left (x ∷ xs) ys h = (h.0, NoNul-left xs ys h.1)

pub NoNul-right : (xs ys : Str) → NoNul (xs ++ ys) → NoNul ys
NoNul-right [] ys h = h
NoNul-right (x ∷ xs) ys h = NoNul-right xs ys h.1

pub length-fmt_rest : (cs : VirtualPath) → length (fmt_rest cs) ≡ total_len cs + length cs
length-fmt_rest [] = refl
length-fmt_rest (c ∷ cs) = omega (arith, length-append c (fmt_rest cs), length-fmt_rest cs)

-- `encoded_len` counts the bytes that `fmt` writes.
pub encoded_len-fmt : (path : VirtualPath) → encoded_len path ≡ length (fmt path)
unfolding encoded_len fmt
encoded_len-fmt [] = refl
encoded_len-fmt (c ∷ cs) = omega (arith, length-append c (fmt_rest cs), length-fmt_rest cs)

-- A text of components that are not empty and have no `/` does not end in one.
ends-after :
    (b : ℕ) (bs : Str) (cs : List Str)
    → b ≢ slash
    → NoSlash bs
    → All NoSlash cs
    → All (λ c. c ≢ []) cs
    → ends_with_slash (b ∷ bs ++ fmt_rest cs) ≡ false
ends-after b [] [] h k ks ns = ground arith
ends-after b [] ([] ∷ ds) h k ks ns = absurd (ns.0 refl)
ends-after b [] ((d ∷ e) ∷ ds) h k ks ns = ends-after d e ds ks.0.0 ks.0.1 ks.1 ns.1
ends-after b (c ∷ bs) cs h k ks ns = ends-after c bs cs k.0 k.1 ks ns

pub ends_with_slash-fmt :
    (c : Str) (cs : List Str)
    → NoSlash c
    → All NoSlash cs
    → c ≢ []
    → All (λ c. c ≢ []) cs
    → ends_with_slash (slash ∷ c ++ fmt_rest cs) ≡ false
ends_with_slash-fmt [] cs h k n ns = absurd (n refl)
ends_with_slash-fmt (b ∷ bs) cs h k n ns = ends-after b bs cs h.0 h.1 k ns

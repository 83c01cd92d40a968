-- ===== src/Filesystem/Path/Parse.antt =====
-- src/filesystem/path.rs: `parse_utf8` and `fmt` are inverse to each other on valid paths.
use compukter_vm.Prelude.{
  ◌≤◌, true, false, List, [], ◌∷◌, ◌++◌, length, any, All, ◌≡◌, refl, ◌≢◌, inl, inr, arith, sym, ap,
  ◌∙◌, Bool-cases, ◌==◌, ltb, if◌then◌else◌, Result, ok, err, and_then, and_then-ok, subst,
  All-append,
}
use compukter_vm.Filesystem.Limits.{FileSystemLimits, FileSystemError, invalid_path}
use compukter_vm.Filesystem.Path.{
  Str, VirtualPath, slash, str_eq, starts_with_slash, tail, split, fmt, fmt_rest, check_components,
  parse_utf8,
}
use compukter_vm.Filesystem.Path.Bytes.{
  str_eq-eq, NoSlash, NoNul, split-fmt_rest, fmt_rest-split, NoNul-any, any-NoNul, NoNul-left,
  NoNul-right, encoded_len-fmt, ends_with_slash-fmt,
}
use compukter_vm.Filesystem.Path.Valid.{
  IsName, IsValid, check_components-IsName, IsName-check_components, IsName-not_empty,
}

NoNul-fmt_rest : (cs : List Str) → All NoNul cs → NoNul (fmt_rest cs)
NoNul-fmt_rest [] h = tt
NoNul-fmt_rest (c ∷ cs) h = (
  (λ z. absurd (omega (arith, z))),
  All-append (λ b. b ≢ 0) c (fmt_rest cs) h.0 (NoNul-fmt_rest cs h.1),
)

fmt_rest-NoNul : (cs : List Str) → NoNul (fmt_rest cs) → All NoNul cs
fmt_rest-NoNul [] h = tt
fmt_rest-NoNul (c ∷ cs) h =
    (NoNul-left c (fmt_rest cs) h.1, fmt_rest-NoNul cs (NoNul-right c (fmt_rest cs) h.1))

name-not_root : (c : Str) (r : Str) → c ≢ [] → str_eq (slash ∷ c ++ r) (slash ∷ []) ≡ false
name-not_root [] r h = absurd (h refl)
name-not_root (b ∷ bs) r h = refl

-- A valid path, written and parsed again, is the same path.
pub parse_utf8-fmt :
    (limits : FileSystemLimits) (path : VirtualPath)
    → IsValid limits path
    → parse_utf8 (fmt path) limits ≡ ok path
unfolding parse_utf8 fmt
parse_utf8-fmt limits [] (ns, s, z, n, l) = ground (arith, encoded_len-fmt [])
parse_utf8-fmt limits (c ∷ cs) (ns, s, z, n, l) =
    let text : Str = slash ∷ c ++ fmt_rest cs in
    let nul : any (λ b. b == 0) text ≡ false = NoNul-any text (
      (λ q. absurd (omega (arith, q))),
      All-append (λ b. b ≢ 0) c (fmt_rest cs) z.0 (NoNul-fmt_rest cs z.1),
    ) in
    let size : ltb limits.maximum_path_bytes (length text) ≡ false =
      ground (arith, encoded_len-fmt (c ∷ cs)) in
    let tail_ok = ends_with_slash-fmt c cs s.0 s.1 ns.0.0 (IsName-not_empty limits cs ns.1) in
    let parts = split-fmt_rest c cs s.0 s.1 in
    rw
      (
        nul,
        size,
        name-not_root c (fmt_rest cs) ns.0.0,
        tail_ok,
        parts,
        check_components-IsName limits (c ∷ cs) ns,
      )
      (ground arith)

module _ (limits : FileSystemLimits) (text : Str) (path : VirtualPath) where
  rooted : starts_with_slash text ≡ true → text ≡ slash ∷ tail text
  rooted h =
      elim text as (λ t. starts_with_slash t ≡ true → t ≡ slash ∷ tail t) [
        | [] ↦ λ e. absurd (ground arith)
        | b ∷ bs ↦ λ e. ap (λ x. x ∷ bs) (ground arith)
      ]
        h

  abbrev at_most : List Str → Result FileSystemError VirtualPath
  at_most components =
      if ltb limits.maximum_components (length components) then err invalid_path else ok components

  root-IsValid :
      length text ≤ limits.maximum_path_bytes
      → text ≡ slash ∷ []
      → path ≡ []
      → IsValid limits path × (fmt path ≡ text)
  unfolding fmt
  root-IsValid size q e =
      subst (λ p. IsValid limits p × (fmt p ≡ text)) (sym e)
        ((tt, tt, tt, omega arith, omega (arith, encoded_len-fmt [], size, ap length q)), sym q)

  names-IsValid :
      (c : Str) (cs : List Str)
      → length text ≤ limits.maximum_path_bytes
      → NoNul text
      → slash ∷ c ++ fmt_rest cs ≡ text
      → NoSlash c
      → All NoSlash cs
      → All (IsName limits) (c ∷ cs)
      → length (c ∷ cs) ≤ limits.maximum_components
      → IsValid limits (c ∷ cs) × (fmt (c ∷ cs) ≡ text)
  unfolding fmt
  names-IsValid c cs size nul w s ss ns n =
      let (z, zs) : NoNul (slash ∷ c ++ fmt_rest cs) = subst NoNul (sym w) nul in
      (
        (
          ns,
          (s, ss),
          (NoNul-left c (fmt_rest cs) zs, fmt_rest-NoNul cs (NoNul-right c (fmt_rest cs) zs)),
          n,
          omega (arith, encoded_len-fmt (c ∷ cs), size, ap length w),
        ),
        w,
      )

  parsed_names :
      str_eq text (slash ∷ []) ≡ false
      → parse_utf8 text limits ≡ ok path
      → and_then (check_components limits (split (tail text))) at_most ≡ ok path
  unfolding parse_utf8
  parsed_names other h = ground arith

  at_most-ok :
      (p : List Str) → at_most p ≡ ok path → (path ≡ p) × (length p ≤ limits.maximum_components)
  at_most-ok p h = (ground arith, ground arith)

  -- What `parse_utf8` accepts is a valid path, whose text is the one that was parsed.
  pub fmt-parse_utf8 : parse_utf8 text limits ≡ ok path → IsValid limits path × (fmt path ≡ text)
  unfolding parse_utf8
  fmt-parse_utf8 h =
      let size : length text ≤ limits.maximum_path_bytes = ground arith in
      let nul : any (λ b. b == 0) text ≡ false = ground arith in
      let start : text ≡ slash ∷ tail text = rooted (ground arith) in
      elim (Bool-cases (str_eq text (slash ∷ []))) [
        | inl is_root ↦
            let q : text ≡ slash ∷ [] = str_eq-eq text (slash ∷ []) is_root in
            root-IsValid size q (ground arith)
        | inr other ↦
            let (c, cs, parts, w, s, ss) = fmt_rest-split (tail text) in
            let (p, e, h') =
              and_then-ok (check_components limits (split (tail text))) at_most path
                (parsed_names other h) in
            let (q, n) = at_most-ok p h' in
            let (q', ns) = IsName-check_components limits (split (tail text)) p e in
            let r : path ≡ c ∷ cs = q ∙ q' ∙ parts in
            subst (λ p. IsValid limits p × (fmt p ≡ text)) (sym r)
              (names-IsValid c cs size (any-NoNul text nul) (ap (λ x. slash ∷ x) w ∙ sym start) s ss
                (subst (All (IsName limits)) parts ns)
                (subst (λ p. length p ≤ limits.maximum_components) (q' ∙ parts) n))
      ]

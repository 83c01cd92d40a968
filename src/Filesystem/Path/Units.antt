-- ===== src/Filesystem/Path/Units.antt =====
-- src/filesystem/path.rs: `parse_utf16` against `parse_utf8`, on the same characters.
use mathlib.Core.List.{append_assoc, append-nil}
use compukter_vm.Prelude.{
  ℕ, ◌+◌, ◌-◌, ◌/◌, ◌%◌, ◌≤◌, ◌<◌, true, false, List, [], ◌∷◌, ◌++◌, length, any, All, ◌≡◌, refl,
  ◌⊎◌, inl, inr, arith, sym, ap, ◌∙◌, Bool-cases, ◌==◌, ltb, if◌then◌else◌, Result, ok, err, panic,
  and_then, subst, length-append,
}
use compukter_vm.Filesystem.Limits.{FileSystemLimits, FileSystemError, invalid_path}
use compukter_vm.Filesystem.Path.{
  Str, utf8, single, leading, trailing, classify, push_scalar, combine, decode_last, decode_next,
  decode_units, parse_utf8, parse_utf16,
}
use compukter_vm.Filesystem.Path.Bytes.{any-append}

-- A Unicode scalar value.
abbrev pub IsScalar : ℕ → Type 0
IsScalar c = (c < 55296) ⊎ ((57344 ≤ c) × (c < 1114112))

-- The UTF-16 encoding of a character, by the standard.
abbrev pub utf16 : ℕ → List ℕ
utf16 c =
    if ltb c 65536 then c ∷ [] else (55296 + (c - 65536) / 1024) ∷ (56320 + (c - 65536) % 1024) ∷ []

abbrev pub encode_utf16 : List ℕ → List ℕ
encode_utf16 [] = []
encode_utf16 (c ∷ cs) = utf16 c ++ encode_utf16 cs

abbrev pub encode_utf8 : List ℕ → Str
encode_utf8 [] = []
encode_utf8 (c ∷ cs) = utf8 c ++ encode_utf8 cs

-- Characters pushed one after the other, as the loop does.
abbrev push_all : FileSystemLimits → Str → List ℕ → Result FileSystemError Str
push_all limits decoded [] = ok decoded
push_all limits decoded (c ∷ cs) =
    and_then (push_scalar limits decoded c) λ decoded. push_all limits decoded cs

classify-low : (c : ℕ) → (c < 55296) ⊎ ((57344 ≤ c) × (c < 65536)) → classify c ≡ single
unfolding classify
classify-low c (inl h) = ground arith
classify-low c (inr (h, k)) = ground arith

combine-halves :
    (c : ℕ)
    → 65536 ≤ c
    → c < 1114112
    → combine (55296 + (c - 65536) / 1024) (56320 + (c - 65536) % 1024) ≡ c
unfolding combine
combine-halves c h k = omega arith

classify-high : (c : ℕ) → 65536 ≤ c → c < 1114112 → classify (55296 + (c - 65536) / 1024) ≡ leading
unfolding classify
classify-high c h k = let l : (c - 65536) / 1024 < 1024 = omega arith in ground arith

classify-second : (c : ℕ) → classify (56320 + (c - 65536) % 1024) ≡ trailing
unfolding classify
classify-second c = let l : (c - 65536) % 1024 < 1024 = omega arith in ground arith

pushed-panic : (r : Result FileSystemError Str) → and_then r (λ d. ok d) ≡ r
pushed-panic (ok d) = refl
pushed-panic (err e) = refl
pushed-panic panic = refl

decode-single :
    (limits : FileSystemLimits) (decoded : Str) (u : ℕ) (us : List ℕ)
    → classify u ≡ single
    → decode_units limits decoded (u ∷ us)
      ≡ and_then (push_scalar limits decoded u) λ d. decode_units limits d us
unfolding decode_units decode_last decode_next
decode-single limits decoded u [] e = rw e (sym (pushed-panic (push_scalar limits decoded u)))
decode-single limits decoded u (v ∷ vs) e = rw e refl

decode-pair :
    (limits : FileSystemLimits) (decoded : Str) (u v : ℕ) (us : List ℕ)
    → classify u ≡ leading
    → classify v ≡ trailing
    → decode_units limits decoded (u ∷ v ∷ us)
      ≡ and_then (push_scalar limits decoded (combine u v)) λ d. decode_units limits d us
unfolding decode_units decode_next
decode-pair limits decoded u v us e f = rw (e, f) refl

decode-utf16 :
    (limits : FileSystemLimits) (decoded : Str) (c : ℕ) (us : List ℕ)
    → IsScalar c
    → decode_units limits decoded (utf16 c ++ us)
      ≡ and_then (push_scalar limits decoded c) λ d. decode_units limits d us
decode-utf16 limits decoded c us h = elim (Bool-cases (ltb c 65536)) [
  | inl small ↦ rw small (
      decode-single limits decoded c us
        (classify-low c (elim h [ inl l ↦ inl l | inr (l, k) ↦ inr (l, ground arith) ])))
  | inr large ↦
      let l : 65536 ≤ c = ground arith in
      let k : c < 1114112 = elim h [ inl a ↦ omega arith | inr (a, b) ↦ b ] in
      let d =
        decode-pair limits decoded (55296 + (c - 65536) / 1024) (56320 + (c - 65536) % 1024) us
          (classify-high c l k) (classify-second c) in
      rw (large) (
        subst
          (λ x.
            decode_units limits decoded
              ((55296 + (c - 65536) / 1024) ∷ (56320 + (c - 65536) % 1024) ∷ us)
            ≡ and_then (push_scalar limits decoded x) λ d. decode_units limits d us)
          (combine-halves c l k) d)
]

bind-ext :
    (r : Result FileSystemError Str) (f g : Str → Result FileSystemError Str)
    → ((d : Str) → f d ≡ g d)
    → and_then r f ≡ and_then r g
bind-ext (ok d) f g h = h d
bind-ext (err e) f g h = refl
bind-ext panic f g h = refl

decode-push_all :
    (limits : FileSystemLimits) (decoded : Str) (cs : List ℕ)
    → All IsScalar cs
    → decode_units limits decoded (encode_utf16 cs) ≡ push_all limits decoded cs
unfolding decode_units
decode-push_all limits decoded [] h = refl
decode-push_all limits decoded (c ∷ cs) h =
    decode-utf16 limits decoded c (encode_utf16 cs) h.0
    ∙ bind-ext (push_scalar limits decoded c) (λ d. decode_units limits d (encode_utf16 cs))
        (λ d. push_all limits d cs) (λ d. decode-push_all limits d cs h.1)

module _ (limits : FileSystemLimits) (text : Str) where
  parse-nul : any (λ b. b == 0) text ≡ true → parse_utf8 text limits ≡ err invalid_path
  unfolding parse_utf8
  parse-nul h = ground arith

  parse-long :
      ltb limits.maximum_path_bytes (length text) ≡ true → parse_utf8 text limits ≡ err invalid_path
  unfolding parse_utf8
  parse-long h = ground arith

nul-text : (d rest : Str) → any (λ b. b == 0) (d ++ (utf8 0 ++ rest)) ≡ true
unfolding utf8
nul-text d rest = ground (arith, any-append (λ b. b == 0) d (0 ∷ rest))

pushed_nul :
    (limits : FileSystemLimits) (d : Str) (cs : List ℕ)
    → and_then (push_all limits d (0 ∷ cs)) (λ x. parse_utf8 x limits)
      ≡ parse_utf8 (d ++ encode_utf8 (0 ∷ cs)) limits
unfolding push_scalar
pushed_nul limits d cs =
    sym (parse-nul limits (d ++ (utf8 0 ++ encode_utf8 cs)) (nul-text d (encode_utf8 cs)))

pushed_long :
    (limits : FileSystemLimits) (d : Str) (c : ℕ) (cs : List ℕ)
    → (c == 0) ≡ false
    → ltb limits.maximum_path_bytes (length (d ++ utf8 c)) ≡ true
    → and_then (push_all limits d (c ∷ cs)) (λ x. parse_utf8 x limits)
      ≡ parse_utf8 (d ++ encode_utf8 (c ∷ cs)) limits
unfolding push_scalar
pushed_long limits d c cs n long =
    rw (n, long)
      (sym (
        parse-long limits (d ++ (utf8 c ++ encode_utf8 cs)) (
          ground (
            arith,
            length-append (d ++ utf8 c) (encode_utf8 cs),
            ap length (append_assoc d (utf8 c) (encode_utf8 cs)),
          ))))

pushed :
    (limits : FileSystemLimits) (d : Str) (c : ℕ) (cs : List ℕ)
    → (c == 0) ≡ false
    → ltb limits.maximum_path_bytes (length (d ++ utf8 c)) ≡ false
    → and_then (push_all limits d (c ∷ cs)) (λ x. parse_utf8 x limits)
      ≡ and_then (push_all limits (d ++ utf8 c) cs) (λ x. parse_utf8 x limits)
unfolding push_scalar
pushed limits d c cs n fits = rw (n, fits) refl

parse-push_all :
    (limits : FileSystemLimits) (d : Str) (cs : List ℕ)
    → and_then (push_all limits d cs) (λ x. parse_utf8 x limits)
      ≡ parse_utf8 (d ++ encode_utf8 cs) limits
parse-push_all limits d [] = ap (λ x. parse_utf8 x limits) (sym (append-nil d))
parse-push_all limits d (c ∷ cs) = elim (Bool-cases (c == 0)) [
  | inl z ↦
      let q : c ≡ 0 = ground arith in
      subst
        (λ c.
          and_then (push_all limits d (c ∷ cs)) (λ x. parse_utf8 x limits)
          ≡ parse_utf8 (d ++ encode_utf8 (c ∷ cs)) limits)
        (sym q) (pushed_nul limits d cs)
  | inr n ↦ elim (Bool-cases (ltb limits.maximum_path_bytes (length (d ++ utf8 c)))) [
    | inl long ↦ pushed_long limits d c cs n long
    | inr fits ↦
        pushed limits d c cs n fits
        ∙ parse-push_all limits (d ++ utf8 c) cs
        ∙ ap (λ x. parse_utf8 x limits) (append_assoc d (utf8 c) (encode_utf8 cs))
  ]
]

-- A path in UTF-16 parses exactly like the same characters in UTF-8, errors included.
pub parse_utf16-utf8 :
    (limits : FileSystemLimits) (cs : List ℕ)
    → All IsScalar cs
    → parse_utf16 (encode_utf16 cs) limits ≡ parse_utf8 (encode_utf8 cs) limits
unfolding parse_utf16
parse_utf16-utf8 limits cs h =
    ap (λ r. and_then r λ d. parse_utf8 d limits) (decode-push_all limits [] cs h)
    ∙ parse-push_all limits [] cs

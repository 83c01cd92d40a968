-- ===== src/Filesystem/Path/Tests.antt =====
-- Paths on concrete texts.
use compukter_vm.Prelude.{ℕ, ◌≡◌, refl, List, [], ◌∷◌, ok, err, All, inl, inr, arith}
use compukter_vm.Filesystem.Limits.{testing, invalid_path}
use compukter_vm.Filesystem.Path.{
  Str, VirtualPath, fmt, parse_utf8, parse_utf16, decode_units, decode_last, decode_next, classify,
  push_scalar, utf8, check_component, check_components,
}
use compukter_vm.Filesystem.Path.Valid.{IsValid}
use compukter_vm.Filesystem.Path.Parse.{parse_utf8-fmt, fmt-parse_utf8}
use compukter_vm.Filesystem.Path.Units.{IsScalar, encode_utf16, encode_utf8, parse_utf16-utf8}

-- `/a/b.c`
abbrev text : Str
text = 47 ∷ 97 ∷ 47 ∷ 98 ∷ 46 ∷ 99 ∷ []

abbrev a_bc : VirtualPath
a_bc = (97 ∷ []) ∷ (98 ∷ 46 ∷ 99 ∷ []) ∷ []

parses : parse_utf8 text testing ≡ ok a_bc
unfolding parse_utf8 check_component check_components
parses = refl

-- `/a/../b`
dots_refused : parse_utf8 (47 ∷ 97 ∷ 47 ∷ 46 ∷ 46 ∷ 47 ∷ 98 ∷ []) testing ≡ err invalid_path
unfolding parse_utf8 check_component check_components
dots_refused = refl

-- A lone half of a surrogate pair.
lone_surrogate_refused : parse_utf16 (47 ∷ 55357 ∷ []) testing ≡ err invalid_path
unfolding parse_utf16 decode_units decode_next decode_last classify push_scalar utf8
lone_surrogate_refused = refl

fmt-parse_utf8_example : IsValid testing a_bc × (fmt a_bc ≡ text)
fmt-parse_utf8_example = fmt-parse_utf8 testing text a_bc parses

a_bc-IsValid : IsValid testing a_bc
a_bc-IsValid = fmt-parse_utf8_valid.0
  where
    fmt-parse_utf8_valid : IsValid testing a_bc × (fmt a_bc ≡ text)
    fmt-parse_utf8_valid = fmt-parse_utf8 testing text a_bc parses

parse_utf8-fmt_example : parse_utf8 (fmt a_bc) testing ≡ ok a_bc
parse_utf8-fmt_example = parse_utf8-fmt testing a_bc a_bc-IsValid

-- `/` and U+1F600
abbrev smile : List ℕ
smile = 47 ∷ 128512 ∷ []

smile-IsScalar : All IsScalar smile
smile-IsScalar = (inl (omega arith), (inr (omega arith, omega arith), tt))

parse_utf16-utf8_example :
    parse_utf16 (encode_utf16 smile) testing ≡ parse_utf8 (encode_utf8 smile) testing
parse_utf16-utf8_example = parse_utf16-utf8 testing smile smile-IsScalar

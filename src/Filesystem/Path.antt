-- ===== src/Filesystem/Path.antt =====
-- src/filesystem/path.rs: absolute guest paths. A `str` is the list of its UTF-8 bytes, a path the
-- list of its components. `/`, `.` and NUL are single bytes in UTF-8 and part of no other character,
-- so the tests on characters are tests on bytes.
pub mod Bytes
pub mod Valid
pub mod Parse
pub mod Units
mod Tests
use compukter_vm.Prelude.{
  ℕ, zero, suc, ◌+◌, ◌-◌, ◌*◌, ◌/◌, ◌%◌, Option, none, some, Bool, true, false, List, [], ◌∷◌, ◌++◌,
  ◌&&◌, ◌||◌, length, any, Result, ok, err, and_then, ltb, leb, ◌==◌, if◌then◌else◌, not,
}
use compukter_vm.Filesystem.Limits.{FileSystemLimits, FileSystemError, invalid_path}

abbrev pub Str : Type 0
Str = List ℕ

abbrev pub VirtualPath : Type 0
VirtualPath = List Str

abbrev pub root : VirtualPath
root = []

-- `==` of strings
abbrev pub str_eq : Str → Str → Bool
str_eq [] [] = true
str_eq (a ∷ xs) (b ∷ bs) = (a == b) && str_eq xs bs
str_eq _ _ = false

abbrev pub is_empty : Str → Bool
is_empty [] = true
is_empty _ = false

-- The byte of `/`
abbrev pub slash : ℕ
slash = 47

abbrev pub starts_with_slash : Str → Bool
starts_with_slash [] = false
starts_with_slash (b ∷ bs) = b == slash

abbrev pub ends_with_slash : Str → Bool
ends_with_slash [] = false
ends_with_slash (b ∷ []) = b == slash
ends_with_slash (b ∷ c ∷ bs) = ends_with_slash (c ∷ bs)

abbrev pub tail : Str → Str
tail [] = []
tail (b ∷ bs) = bs

abbrev pub to_first : ℕ → List Str → List Str
to_first b [] = (b ∷ []) ∷ []
to_first b (c ∷ cs) = (b ∷ c) ∷ cs

-- `split('/')`
abbrev pub split : Str → List Str
split [] = [] ∷ []
split (b ∷ bs) = let rest = split bs in if b == slash then [] ∷ rest else to_first b rest

-- The closure of `map` in `parse_utf8`.
unfoldable pub check_component : FileSystemLimits → Str → Result FileSystemError Str
check_component limits component =
    if is_empty component
      || str_eq component (46 ∷ [])
      || str_eq component (46 ∷ 46 ∷ [])
      || ltb limits.maximum_component_bytes (length component)
    then err invalid_path
    else ok component

-- `map(...).collect::<Result<_, _>>()`
unfoldable pub check_components : FileSystemLimits → List Str → Result FileSystemError (List Str)
check_components limits [] = ok []
check_components limits (c ∷ cs) =
    and_then (check_component limits c) λ c. and_then (check_components limits cs) λ cs. ok (c ∷ cs)

unfoldable pub parse_utf8 : Str → FileSystemLimits → Result FileSystemError VirtualPath
parse_utf8 decoded limits =
    if ltb limits.maximum_path_bytes (length decoded)
      || not (starts_with_slash decoded)
      || is_empty decoded
      || any (λ b. b == 0) decoded
    then err invalid_path
    else if str_eq decoded (slash ∷ [])
    then ok []
    else if ends_with_slash decoded
    then err invalid_path
    else and_then (check_components limits (split (tail decoded))) λ components.
      if ltb limits.maximum_components (length components) then err invalid_path else ok components

-- `String::push`: the UTF-8 bytes of a character
unfoldable pub utf8 : ℕ → Str
utf8 c =
    if ltb c 128
    then c ∷ []
    else if ltb c 2048
    then (192 + c / 64) ∷ (128 + c % 64) ∷ []
    else if ltb c 65536
    then (224 + c / 4096) ∷ (128 + (c / 64) % 64) ∷ (128 + c % 64) ∷ []
    else (240 + c / 262144) ∷ (128 + (c / 4096) % 64) ∷ (128 + (c / 64) % 64) ∷ (128 + c % 64) ∷ []

-- How `char::decode_utf16` takes a code unit: a character of its own, the first half of a
-- surrogate pair, or a second half.
pub data Unit16 : Type 0 where
  single leading trailing : Unit16

unfoldable pub classify : ℕ → Unit16
classify u =
    if ltb u 55296
    then single
    else if ltb u 56320
    then leading
    else if ltb u 57344
    then trailing
    else single

-- The body of the loop in `parse_utf16`, for a character.
unfoldable pub push_scalar : FileSystemLimits → Str → ℕ → Result FileSystemError Str
push_scalar limits decoded scalar =
    if scalar == 0
    then err invalid_path
    else if ltb limits.maximum_path_bytes (length (decoded ++ utf8 scalar))
    then err invalid_path
    else ok (decoded ++ utf8 scalar)

-- The character of a surrogate pair.
unfoldable pub combine : ℕ → ℕ → ℕ
combine high low = 65536 + (high - 55296) * 1024 + (low - 56320)

-- A round of the loop over `char::decode_utf16` in `parse_utf16`, on the last code unit.
unfoldable pub decode_last : FileSystemLimits → Str → ℕ → Unit16 → Result FileSystemError Str
decode_last limits decoded u single = push_scalar limits decoded u
decode_last limits decoded u leading = err invalid_path
decode_last limits decoded u trailing = err invalid_path

-- A round on two or more, with the loop after one and after two of them.
unfoldable pub decode_next :
    FileSystemLimits
    → Str
    → (u v : ℕ) → (after_one after_two : Str → Result FileSystemError Str) → Unit16
    → Unit16
    → Result FileSystemError Str
decode_next limits decoded u v after_one after_two single _ =
    and_then (push_scalar limits decoded u) after_one
decode_next limits decoded u v after_one after_two leading trailing =
    and_then (push_scalar limits decoded (combine u v)) after_two
decode_next limits decoded u v after_one after_two leading single = err invalid_path
decode_next limits decoded u v after_one after_two leading leading = err invalid_path
decode_next limits decoded u v after_one after_two trailing _ = err invalid_path

unfoldable pub decode_units : FileSystemLimits → Str → List ℕ → Result FileSystemError Str
decode_units limits decoded [] = ok decoded
decode_units limits decoded (u ∷ []) = decode_last limits decoded u (classify u)
decode_units limits decoded (u ∷ v ∷ vs) =
    decode_next limits decoded u v (λ d. decode_units limits d (v ∷ vs))
      (λ d. decode_units limits d vs) (classify u) (classify v)

unfoldable pub parse_utf16 : List ℕ → FileSystemLimits → Result FileSystemError VirtualPath
parse_utf16 units limits =
    and_then (decode_units limits [] units) λ decoded. parse_utf8 decoded limits

-- `is_within`: `starts_with` of the components
unfoldable pub is_within : VirtualPath → VirtualPath → Bool
is_within path [] = true
is_within [] (r ∷ rs) = false
is_within (c ∷ cs) (r ∷ rs) = str_eq c r && is_within cs rs

abbrev pub but_last : VirtualPath → VirtualPath
but_last [] = []
but_last (c ∷ []) = []
but_last (c ∷ d ∷ ds) = c ∷ but_last (d ∷ ds)

unfoldable pub parent : VirtualPath → Option VirtualPath
parent [] = none
parent (c ∷ cs) = some (but_last (c ∷ cs))

unfoldable pub file_name : VirtualPath → Option Str
file_name [] = none
file_name (c ∷ []) = some c
file_name (c ∷ d ∷ ds) = file_name (d ∷ ds)

abbrev pub total_len : VirtualPath → ℕ
total_len [] = 0
total_len (c ∷ cs) = length c + total_len cs

-- A path in memory is shorter than `usize::MAX`, so the sum does not overflow.
unfoldable pub encoded_len : VirtualPath → ℕ
encoded_len path = 1 + total_len path + (length path - 1)

-- The components after the first, as `fmt` writes them.
abbrev pub fmt_rest : VirtualPath → Str
fmt_rest [] = []
fmt_rest (c ∷ cs) = slash ∷ c ++ fmt_rest cs

unfoldable pub fmt : VirtualPath → Str
fmt [] = slash ∷ []
fmt (c ∷ cs) = slash ∷ c ++ fmt_rest cs

-- ===== src/Filesystem/Codec.antt =====
-- src/filesystem/persistence/codec.rs: the binary form of the persisted filesystem. A byte is a number
-- below 256. `Sha256::digest` of the `sha2` crate is the parameter `digest`.
pub mod Utf8
pub mod Reads
pub mod Fields
pub mod Checked
mod Tests
use compukter_vm.Prelude.{
  ℕ, zero, suc, ◌+◌, ◌-◌, ◌*◌, ◌/◌, ◌%◌, Option, none, some, Bool, true, false, List, [], ◌∷◌, ◌++◌,
  ◌&&◌, length, Result, ok, err, panic, Method, ◌>>=◌, ◌>>◌, pure, raise, lift, gets, modify, guard,
  ok_or, expect, and_then, ltb, leb, ◌==◌, if◌then◌else◌, not,
}
use compukter_vm.Prelude.Word.{word, half_word, checked_add}
use compukter_vm.Filesystem.Limits.{FileSystemLimits, FileSystemError}
use compukter_vm.Filesystem.Path.{Str, VirtualPath, str_eq, encoded_len, fmt, parse_utf8}

pub data PersistenceCodecError : Type 0 where
  malformed unsupported_version limit_exceeded digest_mismatch non_canonical : PersistenceCodecError

abbrev pub digest_bytes : ℕ
digest_bytes = 32

-- A `Writer` is its bytes.
abbrev pub Writer : Type 0
Writer = List ℕ

abbrev pub W : Type 0 → Type 0
W = Method Writer PersistenceCodecError

-- `to_le_bytes` of an integer of `width` bytes
unfoldable pub to_le_bytes : ℕ → ℕ → List ℕ
to_le_bytes zero value = []
to_le_bytes (suc width) value = value % 256 ∷ to_le_bytes width (value / 256)

-- `from_le_bytes`
unfoldable pub from_le_bytes : List ℕ → ℕ
from_le_bytes [] = 0
from_le_bytes (b ∷ bs) = b + 256 * from_le_bytes bs

unfoldable pub write_bytes : List ℕ → W (Unit {0})
write_bytes bytes = modify (λ w. w ++ bytes)

unfoldable pub write_u8 : ℕ → W (Unit {0})
write_u8 value = modify (λ w. w ++ value ∷ [])

unfoldable pub write_u16 : ℕ → W (Unit {0})
unfolding write_bytes
write_u16 value = write_bytes (to_le_bytes 2 value)

unfoldable pub write_u32 : ℕ → W (Unit {0})
unfolding write_bytes
write_u32 value = write_bytes (to_le_bytes 4 value)

unfoldable pub write_u64 : ℕ → W (Unit {0})
unfolding write_bytes
write_u64 value = write_bytes (to_le_bytes 8 value)

-- The components after the first, each after a `/`.
unfoldable pub write_rest : VirtualPath → W (Unit {0})
unfolding write_bytes
write_rest [] = pure tt
write_rest (c ∷ cs) = write_bytes (47 ∷ []) >> write_bytes c >> write_rest cs

unfoldable pub write_components : VirtualPath → W (Unit {0})
unfolding write_bytes write_rest
write_components [] = pure tt
write_components (c ∷ cs) = write_bytes c >> write_rest cs

-- `u32::try_from`
abbrev pub try_u32 : ℕ → Option ℕ
try_u32 n = if ltb n half_word then some n else none

unfoldable pub write_path : VirtualPath → W (Unit {0})
unfolding write_u32 write_bytes write_components
write_path path = do
  length ← lift (ok_or (try_u32 (encoded_len path)) limit_exceeded)
  write_u32 length
  write_bytes (47 ∷ [])
  write_components path

unfoldable pub path_record_len : VirtualPath → Result PersistenceCodecError ℕ
path_record_len path = ok_or (checked_add 4 (encoded_len path)) limit_exceeded

-- The bytes of a `Cursor` before and after its offset.
pub record Cursor : Type 0 where
  pub bytes : List ℕ
  pub offset : ℕ

abbrev pub C : Type 0 → Type 0
C = Method Cursor PersistenceCodecError

unfoldable pub plain : List ℕ → Cursor
plain bytes = record { bytes = bytes; offset = 0 }

abbrev pub take : ℕ → List ℕ → Option (List ℕ)
take zero bs = some []
take (suc n) [] = none
take (suc n) (b ∷ bs) = elim (take n bs) [ none ↦ none | some t ↦ some (b ∷ t) ]

abbrev pub drop : ℕ → List ℕ → List ℕ
drop zero bs = bs
drop (suc n) [] = []
drop (suc n) (b ∷ bs) = drop n bs

-- `bytes.get(offset..end)`
abbrev pub get_range : List ℕ → ℕ → ℕ → Option (List ℕ)
get_range bytes start end = if leb start end then take (end - start) (drop start bytes) else none

unfoldable pub exact : ℕ → C (List ℕ)
exact length = do
  offset ← gets (λ c. c.offset)
  end ← lift (ok_or (checked_add offset length) malformed)
  bytes ← gets (λ c. c.bytes)
  result ← lift (ok_or (get_range bytes offset end) malformed)
  modify (λ c. record c { offset = end })
  pure result

-- `self.exact(1)?[0]`
abbrev pub first : List ℕ → Option ℕ
first [] = none
first (b ∷ bs) = some b

unfoldable pub read_u8 : C ℕ
unfolding exact
read_u8 = do bytes ← exact 1; lift (expect (first bytes))

unfoldable pub read_u16 : C ℕ
unfolding exact
read_u16 = do bytes ← exact 2; pure (from_le_bytes bytes)

unfoldable pub read_u32 : C ℕ
unfolding exact
read_u32 = do bytes ← exact 4; pure (from_le_bytes bytes)

unfoldable pub read_u64 : C ℕ
unfolding exact
read_u64 = do bytes ← exact 8; pure (from_le_bytes bytes)

-- The state of a UTF-8 validator: between characters, or before a byte in a range with more
-- continuation bytes behind it. The table is that of the Unicode standard, which
-- `std::str::from_utf8` documents.
pub data Utf8State : Type 0 where
  start : Utf8State
  expects : (low high more : ℕ) → Utf8State

unfoldable pub utf8_start : ℕ → Option Utf8State
utf8_start b =
    if ltb b 128
    then some start
    else if ltb b 194
    then none
    else if ltb b 224
    then some (expects 128 191 0)
    else if b == 224
    then some (expects 160 191 1)
    else if b == 237
    then some (expects 128 159 1)
    else if ltb b 240
    then some (expects 128 191 1)
    else if b == 240
    then some (expects 144 191 2)
    else if ltb b 244
    then some (expects 128 191 2)
    else if b == 244
    then some (expects 128 143 2)
    else none

unfoldable pub utf8_step : Utf8State → ℕ → Option Utf8State
unfolding utf8_start
utf8_step start b = utf8_start b
utf8_step (expects low high zero) b = if leb low b && leb b high then some start else none
utf8_step (expects low high (suc more)) b =
    if leb low b && leb b high then some (expects 128 191 more) else none

unfoldable pub utf8_run : Option Utf8State → List ℕ → Option Utf8State
unfolding utf8_step
utf8_run none bs = none
utf8_run (some s) [] = some s
utf8_run (some s) (b ∷ bs) = utf8_run (utf8_step s b) bs

abbrev pub at_start : Option Utf8State → Bool
at_start (some start) = true
at_start _ = false

-- `std::str::from_utf8(bytes).is_ok()`
unfoldable pub is_utf8 : List ℕ → Bool
unfolding utf8_run
is_utf8 bs = at_start (utf8_run (some start) bs)

-- `map_err(|_| error)`
abbrev pub map_err :
    {E A : Type 0} → Result E A → PersistenceCodecError → Result PersistenceCodecError A
map_err (ok a) e = ok a
map_err (err x) e = err e
map_err panic e = panic

unfoldable pub read_path : FileSystemLimits → C VirtualPath
unfolding read_u32 exact is_utf8
read_path limits = do
  length ← read_u32
  guard (leb length limits.maximum_path_bytes) limit_exceeded
  text ← exact length
  guard (is_utf8 text) malformed
  lift (map_err (parse_utf8 text limits) non_canonical)

unfoldable pub remaining : Cursor → ℕ
remaining c = length c.bytes - c.offset

unfoldable pub finish : Cursor → Result PersistenceCodecError (Unit {0})
finish c = if c.offset == length c.bytes then ok tt else err malformed

module _ (digest : List ℕ → List ℕ) where
  unfoldable pub finish_checked : ℕ → Writer → Result PersistenceCodecError (List ℕ)
  finish_checked maximum bytes =
      and_then (ok_or (checked_add (length bytes) digest_bytes) limit_exceeded)
        λ length. if ltb maximum length then err limit_exceeded else ok (bytes ++ digest bytes)

  unfoldable pub verified : List ℕ → ℕ → Result PersistenceCodecError Cursor
  verified bytes maximum =
      if ltb maximum (length bytes)
      then err limit_exceeded
      else if ltb (length bytes) digest_bytes
      then err malformed
      else let payload_end = length bytes - digest_bytes in
        and_then (expect (take payload_end bytes)) λ payload.
          if str_eq (digest payload) (drop payload_end bytes)
          then ok (record { bytes = payload; offset = 0 })
          else err digest_mismatch

-- `home_descendant`
unfoldable pub home_descendant : VirtualPath → Bool
home_descendant [] = false
home_descendant (c ∷ []) = false
home_descendant (c ∷ d ∷ ds) = str_eq c (104 ∷ 111 ∷ 109 ∷ 101 ∷ [])

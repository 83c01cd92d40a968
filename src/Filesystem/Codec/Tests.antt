-- ===== src/Filesystem/Codec/Tests.antt =====
-- The codec on concrete records.
use compukter_vm.Prelude.{
  ℕ, ◌≡◌, refl, List, [], ◌∷◌, ok, arith, replicate, length, length-replicate, All,
}
use compukter_vm.Filesystem.Limits.{testing}
use compukter_vm.Filesystem.Path.{
  VirtualPath, encoded_len, fmt, parse_utf8, check_component, check_components,
}
use compukter_vm.Filesystem.Path.Valid.{IsValid}
use compukter_vm.Filesystem.Path.Parse.{fmt-parse_utf8}
use compukter_vm.Filesystem.Codec.{
  Cursor, plain, finish, is_utf8, utf8_run, utf8_step, utf8_start, to_le_bytes, finish_checked,
  verified,
}
use compukter_vm.Filesystem.Codec.Fields.{
  Field, byte, short, raw, path, encoded_all, IsField, write_fields, read_fields, write-read_fields,
}
use compukter_vm.Filesystem.Codec.Checked.{
  IsDigest, verified-finish_checked, finish_checked-verified,
}

-- `/home/a`
abbrev home_a : VirtualPath
home_a = (104 ∷ 111 ∷ 109 ∷ 101 ∷ []) ∷ (97 ∷ []) ∷ []

abbrev fields : List Field
fields = byte 7 ∷ short 258 ∷ path home_a ∷ raw (1 ∷ 2 ∷ []) ∷ []

encodes :
    encoded_all fields
    ≡ 7 ∷ 2 ∷ 1 ∷ 7 ∷ 0 ∷ 0 ∷ 0 ∷ 47 ∷ 104 ∷ 111 ∷ 109 ∷ 101 ∷ 47 ∷ 97 ∷ 1 ∷ 2 ∷ []
unfolding to_le_bytes encoded_len fmt
encodes = refl

abbrev text_a : List ℕ
text_a = 47 ∷ 104 ∷ 111 ∷ 109 ∷ 101 ∷ 47 ∷ 97 ∷ []

home_a-IsValid : IsValid testing home_a
unfolding parse_utf8 check_component check_components
home_a-IsValid = (fmt-parse_utf8 testing text_a home_a refl).0

fields-IsField : All (IsField testing) fields
unfolding is_utf8 utf8_run utf8_step utf8_start encoded_len
fields-IsField =
    (omega arith, (omega arith, ((home_a-IsValid, (refl, (refl, tt)), omega arith), (tt, tt))))

-- A stand-in for SHA-256 of the right width.
abbrev toy_digest : List ℕ → List ℕ
toy_digest bytes = replicate 32 (length bytes)

toy_digest-IsDigest : IsDigest toy_digest
toy_digest-IsDigest bytes = length-replicate 32 (length bytes)

write-read_fields_example :
    (write_fields fields [] ≡ (ok tt, encoded_all fields))
    × (c : Cursor) × (read_fields testing fields (plain (encoded_all fields)) ≡ (ok fields, c))
    × (finish c ≡ ok tt)
unfolding to_le_bytes encoded_len fmt
write-read_fields_example = write-read_fields testing fields fields-IsField (omega arith)

abbrev record_of_two : List ℕ
record_of_two = 5 ∷ 6 ∷ replicate 32 2

finishes : finish_checked toy_digest 34 (5 ∷ 6 ∷ []) ≡ ok record_of_two
unfolding finish_checked
finishes = refl

verifies : verified toy_digest record_of_two 34 ≡ ok (plain (5 ∷ 6 ∷ []))
unfolding verified plain
verifies = refl

verified-finish_checked_example : verified toy_digest record_of_two 34 ≡ ok (plain (5 ∷ 6 ∷ []))
verified-finish_checked_example =
    verified-finish_checked toy_digest toy_digest-IsDigest 34 record_of_two (5 ∷ 6 ∷ []) finishes

finish_checked-verified_example :
    (plain (5 ∷ 6 ∷ []) ≡ plain (5 ∷ 6 ∷ []))
    × (finish_checked toy_digest 34 (5 ∷ 6 ∷ []) ≡ ok record_of_two)
unfolding plain
finish_checked-verified_example =
    finish_checked-verified toy_digest toy_digest-IsDigest 34 record_of_two (plain (5 ∷ 6 ∷ []))
      (omega arith) verifies

-- ===== src/Filesystem/Codec/Fields.antt =====
-- src/filesystem/persistence/codec.rs: what a `Writer` writes, a `Cursor` reads back.
use mathlib.Core.List.{append_assoc, append-nil}
use compukter_vm.Prelude.{
  ℕ, ◌<◌, some, true, List, [], ◌∷◌, ◌++◌, ◌≡◌, refl, ◌∙◌, sym, ap, subst, arith, All, length,
  length-append, ok, ◌>>=◌, ◌>>◌, pure, leb,
}
use compukter_vm.Prelude.Word.{word, half_word}
use compukter_vm.Filesystem.Limits.{FileSystemLimits}
use compukter_vm.Filesystem.Path.{VirtualPath, encoded_len, fmt, fmt_rest}
use compukter_vm.Filesystem.Path.Bytes.{encoded_len-fmt}
use compukter_vm.Filesystem.Path.Valid.{IsValid}
use compukter_vm.Filesystem.Path.Parse.{parse_utf8-fmt}
use compukter_vm.Filesystem.Codec.{
  Writer, W, to_le_bytes, write_bytes, write_u8, write_u16, write_u32, write_u64, write_rest,
  write_components, try_u32, write_path, Cursor, C, plain, exact, read_u8, read_u16, read_u32,
  read_u64, is_utf8, read_path, finish,
}
use compukter_vm.Filesystem.Codec.Utf8.{is_utf8-fmt}
use compukter_vm.Filesystem.Codec.Reads.{
  at, Fits, exact-field, read-u16, read-u32, read-u64, read-u8,
}

-- A field of a record, with its bounds.
pub data Field : Type 0 where
  byte short int long : ℕ → Field
  raw : List ℕ → Field
  path : VirtualPath → Field

abbrev pub IsField : FileSystemLimits → Field → Type 0
IsField limits (byte value) = value < 256
IsField limits (short value) = value < 65536
IsField limits (int value) = value < half_word
IsField limits (long value) = value < word
IsField limits (raw bytes) = Unit
IsField limits (path p) =
    IsValid limits p × All (λ c. is_utf8 c ≡ true) p × (limits.maximum_path_bytes < half_word)

unfoldable pub write_field : Field → W (Unit {0})
write_field (byte value) = write_u8 value
write_field (short value) = write_u16 value
write_field (int value) = write_u32 value
write_field (long value) = write_u64 value
write_field (raw bytes) = write_bytes bytes
write_field (path p) = write_path p

unfoldable pub write_fields : List Field → W (Unit {0})
write_fields [] = pure tt
write_fields (f ∷ fs) = write_field f >> write_fields fs

-- A field of the same kind, read; raw bytes have their length.
unfoldable pub read_field : FileSystemLimits → Field → C Field
read_field limits (byte _) = read_u8 >>= λ v. pure (byte v)
read_field limits (short _) = read_u16 >>= λ v. pure (short v)
read_field limits (int _) = read_u32 >>= λ v. pure (int v)
read_field limits (long _) = read_u64 >>= λ v. pure (long v)
read_field limits (raw bytes) = exact (length bytes) >>= λ v. pure (raw v)
read_field limits (path _) = read_path limits >>= λ v. pure (path v)

unfoldable pub read_fields : FileSystemLimits → List Field → C (List Field)
read_fields limits [] = pure []
read_fields limits (f ∷ fs) =
    read_field limits f >>= λ v. read_fields limits fs >>= λ vs. pure (v ∷ vs)

abbrev pub encoded : Field → List ℕ
encoded (byte value) = value ∷ []
encoded (short value) = to_le_bytes 2 value
encoded (int value) = to_le_bytes 4 value
encoded (long value) = to_le_bytes 8 value
encoded (raw bytes) = bytes
encoded (path p) = to_le_bytes 4 (encoded_len p) ++ fmt p

abbrev pub encoded_all : List Field → List ℕ
encoded_all [] = []
encoded_all (f ∷ fs) = encoded f ++ encoded_all fs

write-rest : (cs : VirtualPath) (w : Writer) → write_rest cs w ≡ (ok tt, w ++ fmt_rest cs)
unfolding write_rest write_bytes
write-rest [] w = ap (λ x. (ok tt, x)) (sym (append-nil w))
write-rest (c ∷ cs) w =
    write-rest cs ((w ++ 47 ∷ []) ++ c)
    ∙ ap (λ x. (ok tt, x))
        (append_assoc (w ++ 47 ∷ []) c (fmt_rest cs) ∙ append_assoc w (47 ∷ []) (c ++ fmt_rest cs))

write-path :
    (p : VirtualPath) (w : Writer)
    → encoded_len p < half_word
    → write_path p w ≡ (ok tt, w ++ (to_le_bytes 4 (encoded_len p) ++ fmt p))
unfolding write_path write_u32 write_bytes write_components fmt
write-path [] w h =
    let t : try_u32 (encoded_len []) ≡ some (encoded_len []) = ground arith in
    rw (t, write_path)
      (ap (λ x. (ok tt, x)) (append_assoc w (to_le_bytes 4 (encoded_len [])) (47 ∷ [])))
write-path (c ∷ cs) w h =
    let size = to_le_bytes 4 (encoded_len (c ∷ cs)) in
    let t : try_u32 (encoded_len (c ∷ cs)) ≡ some (encoded_len (c ∷ cs)) = ground arith in
    rw (t, write_path, write-rest cs (((w ++ size) ++ 47 ∷ []) ++ c))
      (ap (λ x. (ok tt, x))
        (append_assoc ((w ++ size) ++ 47 ∷ []) c (fmt_rest cs)
          ∙ append_assoc (w ++ size) (47 ∷ []) (c ++ fmt_rest cs)
          ∙ append_assoc w size (47 ∷ c ++ fmt_rest cs)))

write-field :
    (limits : FileSystemLimits) (f : Field) (w : Writer)
    → IsField limits f
    → write_field f w ≡ (ok tt, w ++ encoded f)
unfolding write_field write_u8 write_u16 write_u32 write_u64 write_bytes
write-field limits (byte v) w h = refl
write-field limits (short v) w h = refl
write-field limits (int v) w h = refl
write-field limits (long v) w h = refl
write-field limits (raw bytes) w h = refl
write-field limits (path p) w (v, u, b) = write-path p w (omega (arith, v.4))

write-fields :
    (limits : FileSystemLimits) (fs : List Field) (w : Writer)
    → All (IsField limits) fs
    → write_fields fs w ≡ (ok tt, w ++ encoded_all fs)
unfolding write_fields
write-fields limits [] w h = ap (λ x. (ok tt, x)) (sym (append-nil w))
write-fields limits (f ∷ fs) w h = rw (write-field limits f w h.0) (
    write-fields limits fs (w ++ encoded f) h.1
    ∙ ap (λ x. (ok tt, x)) (append_assoc w (encoded f) (encoded_all fs)))

module _ (limits : FileSystemLimits) (before rest : List ℕ) where
  read-path :
      (p : VirtualPath)
      → IsField limits (path p)
      → Fits (before ++ (encoded (path p) ++ rest))
      → read_path limits (at before (encoded (path p) ++ rest))
        ≡ (ok p, at (before ++ encoded (path p)) rest)
  unfolding read_path
  read-path p (v, u, b) fits =
      let size = to_le_bytes 4 (encoded_len p) in
      let small : encoded_len p < half_word = omega (arith, v.4) in
      let allowed : leb (encoded_len p) limits.maximum_path_bytes ≡ true = ground (arith, v.4) in
      let fits' : Fits (before ++ (size ++ (fmt p ++ rest))) =
        subst (λ x. Fits (before ++ x)) (append_assoc size (fmt p) rest) fits in
      let fits'' : Fits ((before ++ size) ++ (fmt p ++ rest)) =
        subst Fits (sym (append_assoc before size (fmt p ++ rest))) fits' in
      let number = read-u32 before (fmt p ++ rest) (encoded_len p) small fits' in
      let text =
        subst
          (λ n.
            exact n (at (before ++ size) (fmt p ++ rest))
            ≡ (ok (fmt p), at ((before ++ size) ++ fmt p) rest))
          (sym (encoded_len-fmt p)) (exact-field (before ++ size) (fmt p) rest fits'') in
      subst (λ x. read_path limits (at before x) ≡ (ok p, at (before ++ encoded (path p)) rest))
        (sym (append_assoc size (fmt p) rest))
        (rw (read_path, number, allowed, text, is_utf8-fmt p u, parse_utf8-fmt limits p v)
          (ap (λ x. (ok p, at x rest)) (append_assoc before size (fmt p))))

  read-field :
      (f : Field)
      → IsField limits f
      → Fits (before ++ (encoded f ++ rest))
      → read_field limits f (at before (encoded f ++ rest)) ≡ (ok f, at (before ++ encoded f) rest)
  unfolding read_field
  read-field (byte v) h fits = rw (read-u8 before rest v fits) refl
  read-field (short v) h fits = rw (read-u16 before rest v h fits) refl
  read-field (int v) h fits = rw (read-u32 before rest v h fits) refl
  read-field (long v) h fits = rw (read-u64 before rest v h fits) refl
  read-field (raw bytes) h fits = rw (exact-field before bytes rest fits) refl
  read-field (path p) h fits = rw (read-path p h fits) refl

read-fields :
    (limits : FileSystemLimits) (fs : List Field) (before : List ℕ)
    → All (IsField limits) fs
    → Fits (before ++ encoded_all fs)
    → read_fields limits fs (at before (encoded_all fs)) ≡ (ok fs, at (before ++ encoded_all fs) [])
unfolding read_fields
read-fields limits [] before h fits =
    subst (λ b. read_fields limits [] (at before []) ≡ (ok [], at b [])) (sym (append-nil before))
      refl
read-fields limits (f ∷ fs) before h fits =
    let fits' : Fits ((before ++ encoded f) ++ encoded_all fs) =
      subst Fits (sym (append_assoc before (encoded f) (encoded_all fs))) fits in
    rw
      (
        read-field limits before (encoded_all fs) f h.0 fits,
        read-fields limits fs (before ++ encoded f) h.1 fits',
      )
      (ap (λ x. (ok (f ∷ fs), at x [])) (append_assoc before (encoded f) (encoded_all fs)))

at_end : (b : List ℕ) → finish (at b []) ≡ ok tt
unfolding finish
at_end b = ground (arith, length-append b [])

-- Fields within their bounds, among them valid paths, are written without an error; a cursor over the
-- bytes, which fit a `usize`, reads the same fields back and is then at their end.
pub write-read_fields :
    (limits : FileSystemLimits) (fs : List Field)
    → All (IsField limits) fs
    → Fits (encoded_all fs)
    → (write_fields fs [] ≡ (ok tt, encoded_all fs))
      × (c : Cursor) × (read_fields limits fs (plain (encoded_all fs)) ≡ (ok fs, c))
      × (finish c ≡ ok tt)
unfolding plain
write-read_fields limits fs h fits = (
  write-fields limits fs [] h,
  at (encoded_all fs) [],
  read-fields limits fs [] h fits,
  at_end (encoded_all fs),
)

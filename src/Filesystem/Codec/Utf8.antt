-- ===== src/Filesystem/Codec/Utf8.antt =====
-- src/filesystem/persistence/codec.rs: texts that `str::from_utf8` accepts, written one after the other.
use compukter_vm.Prelude.{
  ℕ, Option, none, some, true, List, [], ◌∷◌, ◌++◌, ◌≡◌, refl, ◌∙◌, ap, arith, All,
}
use compukter_vm.Filesystem.Path.{VirtualPath, fmt_rest, fmt}
use compukter_vm.Filesystem.Codec.{
  Utf8State, start, expects, at_start, utf8_run, utf8_step, utf8_start, is_utf8,
}

run-append :
    (s : Option Utf8State) (xs ys : List ℕ) → utf8_run s (xs ++ ys) ≡ utf8_run (utf8_run s xs) ys
unfolding utf8_run
run-append none xs ys = refl
run-append (some s) [] ys = refl
run-append (some s) (x ∷ xs) ys = run-append (utf8_step s x) xs ys

at_start-some : (s : Option Utf8State) → at_start s ≡ true → s ≡ some start
at_start-some none h = absurd (ground arith)
at_start-some (some start) h = refl
at_start-some (some (expects l h m)) q = absurd (ground arith)

pub is_utf8-append :
    (xs ys : List ℕ) → is_utf8 xs ≡ true → is_utf8 ys ≡ true → is_utf8 (xs ++ ys) ≡ true
unfolding is_utf8
is_utf8-append xs ys h k =
    ap at_start (
      run-append (some start) xs ys
      ∙ ap (λ s. utf8_run s ys) (at_start-some (utf8_run (some start) xs) h))
    ∙ k

pub is_utf8-slash : is_utf8 (47 ∷ []) ≡ true
unfolding is_utf8 utf8_run utf8_step utf8_start
is_utf8-slash = refl

is_utf8-nil : is_utf8 [] ≡ true
unfolding is_utf8 utf8_run
is_utf8-nil = refl

is_utf8-fmt_rest :
    (cs : VirtualPath) → All (λ c. is_utf8 c ≡ true) cs → is_utf8 (fmt_rest cs) ≡ true
is_utf8-fmt_rest [] h = is_utf8-nil
is_utf8-fmt_rest (c ∷ cs) h =
    is_utf8-append (47 ∷ []) (c ++ fmt_rest cs) is_utf8-slash
      (is_utf8-append c (fmt_rest cs) h.0 (is_utf8-fmt_rest cs h.1))

-- A path of UTF-8 components is written as UTF-8.
pub is_utf8-fmt :
    (path : VirtualPath) → All (λ c. is_utf8 c ≡ true) path → is_utf8 (fmt path) ≡ true
unfolding fmt
is_utf8-fmt [] h = is_utf8-slash
is_utf8-fmt (c ∷ cs) h = is_utf8-fmt_rest (c ∷ cs) h

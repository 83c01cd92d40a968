-- ===== src/Terminal/Input/Keys.antt =====
-- src/terminal/input.rs: the code of a key and the key of a code.
use compukter_vm.Prelude.{
  ℕ, List, [], ◌∷◌, All, ◌≡◌, refl, sym, ap, ◌∙◌, subst, ◌↔◌, ok, ◌==◌, Bool-cases, inl, inr, arith,
}
use compukter_vm.Terminal.Input.{
  TerminalKey, code, arms, match_arm, try_from, escape, backspace, tab, enter, c, s, u, t, x,
  insert, delete, home, end, page_up, page_down, up, left, down, right, f1, f2, f3, f4, f5, f6, f7,
  f8, f9, f10, f11, f12,
}

try_from-code : (key : TerminalKey) → try_from (code key) ≡ ok key
unfolding try_from code
try_from-code escape = refl
try_from-code backspace = refl
try_from-code tab = refl
try_from-code enter = refl
try_from-code c = refl
try_from-code s = refl
try_from-code u = refl
try_from-code t = refl
try_from-code x = refl
try_from-code insert = refl
try_from-code delete = refl
try_from-code home = refl
try_from-code end = refl
try_from-code page_up = refl
try_from-code page_down = refl
try_from-code up = refl
try_from-code left = refl
try_from-code down = refl
try_from-code right = refl
try_from-code f1 = refl
try_from-code f2 = refl
try_from-code f3 = refl
try_from-code f4 = refl
try_from-code f5 = refl
try_from-code f6 = refl
try_from-code f7 = refl
try_from-code f8 = refl
try_from-code f9 = refl
try_from-code f10 = refl
try_from-code f11 = refl
try_from-code f12 = refl

match_arm-All :
    (P : ℕ → TerminalKey → Type 0) (value : ℕ) (key : TerminalKey) (rows : List (ℕ × TerminalKey))
    → All (λ row. P (row.0) (row.1)) rows
    → match_arm value rows ≡ ok key
    → P value key
match_arm-All P value key [] h e = absurd (ground arith)
match_arm-All P value key ((number, k) ∷ rest) h e = elim (Bool-cases (value == number)) [
  | inl q ↦
      let v : value ≡ number = ground arith in
      let w : k ≡ key = ground arith in subst (λ x. P x key) (sym v) (subst (P number) w h.0)
  | inr q ↦ match_arm-All P value key rest h.1 (ground arith)
]

arms-code : All (λ row. code (row.1) ≡ row.0) arms
unfolding code
arms-code = (
  refl,
  (
    refl,
    (
      refl,
      (
        refl,
        (
          refl,
          (
            refl,
            (
              refl,
              (
                refl,
                (
                  refl,
                  (
                    refl,
                    (
                      refl,
                      (
                        refl,
                        (
                          refl,
                          (
                            refl,
                            (
                              refl,
                              (
                                refl,
                                (
                                  refl,
                                  (
                                    refl,
                                    (
                                      refl,
                                      (
                                        refl,
                                        (
                                          refl,
                                          (
                                            refl,
                                            (
                                              refl,
                                              (
                                                refl,
                                                (
                                                  refl,
                                                  (
                                                    refl,
                                                    (refl, (refl, (refl, (refl, (refl, tt))))),
                                                  ),
                                                ),
                                              ),
                                            ),
                                          ),
                                        ),
                                      ),
                                    ),
                                  ),
                                ),
                              ),
                            ),
                          ),
                        ),
                      ),
                    ),
                  ),
                ),
              ),
            ),
          ),
        ),
      ),
    ),
  ),
)

-- A number is turned into a key exactly when it is the code of that key.
pub try_from-exact :
    (value : ℕ) (key : TerminalKey) → (try_from value ≡ ok key) ↔ (value ≡ code key)
unfolding try_from
try_from-exact value key = (
  (λ e. sym (match_arm-All (λ v k. code k ≡ v) value key arms arms-code e)),
  λ e. ap try_from e ∙ try_from-code key,
)

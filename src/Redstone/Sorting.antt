-- ===== src/Redstone/Sorting.antt =====
-- src/redstone.rs: wakeups, sorted by task and request.
use compukter_vm.Prelude.{
  Bool, true, false, List, [], ◌∷◌, All, count, ◌≡◌, refl, ◌∙◌, arith, Bool-cases, inl, inr,
  All-map,
}
use compukter_vm.Redstone.{RedstoneWakeup, key_le, insert_by_key, sort_by_key}

abbrev pub IsSorted : List RedstoneWakeup → Type 0
IsSorted [] = Unit
IsSorted (a ∷ rest) = All (λ b. key_le a b ≡ true) rest × IsSorted rest

key_le_trans : (a b c : RedstoneWakeup) → key_le a b ≡ true → key_le b c ≡ true → key_le a c ≡ true
unfolding key_le
key_le_trans a b c h k = ground arith

key_le_total : (a b : RedstoneWakeup) → key_le a b ≡ false → key_le b a ≡ true
unfolding key_le
key_le_total a b h = ground arith

All-insert :
    (x a : RedstoneWakeup) (rest : List RedstoneWakeup)
    → key_le x a ≡ true
    → All (λ b. key_le x b ≡ true) rest
    → All (λ b. key_le x b ≡ true) (insert_by_key a rest)
unfolding insert_by_key
All-insert x a [] h k = (h, tt)
All-insert x a (b ∷ bs) h k = elim (Bool-cases (key_le a b)) [
  | inl e ↦ rw e (h, k)
  | inr e ↦ rw e (k.0, All-insert x a bs h k.1)
]

insert-IsSorted :
    (a : RedstoneWakeup) (rest : List RedstoneWakeup)
    → IsSorted rest
    → IsSorted (insert_by_key a rest)
unfolding insert_by_key
insert-IsSorted a [] h = (tt, tt)
insert-IsSorted a (b ∷ bs) h = elim (Bool-cases (key_le a b)) [
  | inl e ↦ rw e (
    (
      e,
      All-map (λ c. key_le b c ≡ true) (λ c. key_le a c ≡ true) bs (λ c k. key_le_trans a b c e k)
          h.0,
    ),
    h,
  )
  | inr e ↦ rw e (All-insert b a bs (key_le_total a b e) h.0, insert-IsSorted a bs h.1)
]

pub sort-IsSorted : (xs : List RedstoneWakeup) → IsSorted (sort_by_key xs)
unfolding sort_by_key
sort-IsSorted [] = tt
sort-IsSorted (a ∷ xs) = insert-IsSorted a (sort_by_key xs) (sort-IsSorted xs)

count-insert :
    (p : RedstoneWakeup → Bool) (a : RedstoneWakeup) (rest : List RedstoneWakeup)
    → count p (insert_by_key a rest) ≡ count p (a ∷ rest)
unfolding insert_by_key
count-insert p a [] = refl
count-insert p a (b ∷ bs) = elim (Bool-cases (key_le a b)) [
  | inl e ↦ rw e refl
  | inr e ↦ rw e (ground (arith, count-insert p a bs))
]

pub count-sort :
    (p : RedstoneWakeup → Bool) (xs : List RedstoneWakeup) → count p (sort_by_key xs) ≡ count p xs
unfolding sort_by_key
count-sort p [] = refl
count-sort p (a ∷ xs) = count-insert p a (sort_by_key xs) ∙ ground (arith, count-sort p xs)

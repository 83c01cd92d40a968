-- ===== src/Execution/ArrayCopy/Accepting.antt =====
-- src/execution/array_copy.rs: the copies that are begun.
use compukter_vm.Prelude.{
  ℕ, ◌+◌, ◌-◌, ◌≤◌, ◌<◌, ◌≡◌, refl, sym, ◌∙◌, ◌⊎◌, inl, inr, arith, Bool, true, false, ◌&&◌, ◌||◌,
  ok, err, ltb, ◌==◌, if◌then◌else◌,
}
use compukter_vm.Prelude.Int.{ℤ, pos, negsuc}
use compukter_vm.Execution.Heap.{Ref32}
use compukter_vm.Execution.ArrayCopy.{
  PendingArrayCopy, made, index_out_of_bounds, new, leaves, exceeds,
}
use compukter_vm.Execution.ArrayCopy.Progress.{at}

-- The range is one of an array of `length` elements, and its end is an `i32`.
abbrev pub Within : ℤ → ℤ → ℤ → Type 0
Within (pos start) (pos n) (pos length) = (start + n ≤ length) × (start + n < 2147483648)
Within _ _ _ = ⊥

leaves-Within :
    (start n : ℕ) (length : ℤ)
    → ((leaves start n length ≡ false) × Within (pos start) (pos n) length)
      ⊎ ((leaves start n length ≡ true) × ¬ Within (pos start) (pos n) length)
unfolding leaves exceeds
leaves-Within start n (pos length) = ground arith
leaves-Within start n (negsuc length) = inr (ground arith, λ w. w)

-- `new` accepts a copy where both ranges lie in their arrays and end below 2^31, and it is the trap
-- for an index out of bounds otherwise, also where a start or the length is negative.
pub new-Within :
    (source destination : Ref32 × ℤ) (source_start destination_start n : ℤ) (width : ℕ)
    → (Within source_start n source.1
        × Within destination_start n destination.1
        × ((p : PendingArrayCopy) × (new source destination source_start destination_start n width
              ≡ ok p)))
      ⊎ ((¬ (Within source_start n source.1 × Within destination_start n destination.1))
          × (new source destination source_start destination_start n width
              ≡ err index_out_of_bounds))
unfolding new
new-Within source destination (pos s) (pos d) (pos n) width = elim (leaves-Within s n source.1) [
  | inr (e, w) ↦ inr ((λ x. w x.0), rw e refl)
  | inl (e, w) ↦ elim (leaves-Within d n destination.1) [
    | inr (e', w') ↦ inr ((λ x. w' x.1), rw (e, e') refl)
    | inl (e', w') ↦ inl (w, w', (made source.0 destination.0 s d n width, rw (e, e') refl))
  ]
]
new-Within source destination (negsuc s) d n width = inr ((λ x. x.0), refl)
new-Within source destination (pos s) (negsuc d) n width = inr ((λ x. x.1), refl)
new-Within source destination (pos s) (pos d) (negsuc n) width = inr ((λ x. x.0), refl)

unless :
    (a b : Bool) (q p : PendingArrayCopy)
    → (if a || b then err index_out_of_bounds else ok q) ≡ ok p
    → (a ≡ false) × (b ≡ false) × (q ≡ p)
unless true b q p e = absurd (cc e)
unless false true q p e = absurd (cc e)
unless false false q p e = (refl, refl, cc e)

stays-Within : (start n length : ℕ) → leaves start n (pos length) ≡ false → start + n ≤ length
stays-Within start n length e = elim (leaves-Within start n (pos length)) [
  | inl (e', w) ↦ w.0
  | inr (e', w) ↦ absurd (cc)
]

begun :
    (source destination source_start destination_start n width : ℕ) (backward : Bool)
    → record {
      source = source;
      destination = destination;
      source_start = source_start;
      destination_start = destination_start;
      remaining = n;
      width = width;
      backward = backward;
    }
      ≡ at source destination source_start destination_start n width backward 0
begun source destination source_start destination_start n width true =
    let z : n - 0 ≡ n = omega arith in rw z refl
begun source destination source_start destination_start n width false =
    let x : source_start + 0 ≡ source_start = omega arith in
    let y : destination_start + 0 ≡ destination_start = omega arith in
    let z : n - 0 ≡ n = omega arith in rw (x, y, z) refl

made-at :
    (source destination source_start destination_start n width : ℕ)
    → made source destination source_start destination_start n width
      ≡ at source destination source_start destination_start n width
          ((source == destination) && ltb source_start destination_start)
          0
made-at source destination source_start destination_start n width =
    begun source destination source_start destination_start n width
      ((source == destination) && ltb source_start destination_start)

-- What `new` returns, and where the ranges lie.
pub new-at :
    (source destination source_length destination_length source_start destination_start n width : ℕ)
    (p : PendingArrayCopy)
    → new
        (source, pos source_length)
        (destination, pos destination_length)
        (pos source_start)
        (pos destination_start)
        (pos n)
        width
      ≡ ok p
    → (source_start + n ≤ source_length)
      × (destination_start + n ≤ destination_length)
      × (p
          ≡ at source destination source_start destination_start n width
              ((source == destination) && ltb source_start destination_start)
              0)
unfolding new
new-at source destination source_length destination_length source_start destination_start n width p
      e =
    let (x, y, z) =
      unless (leaves source_start n (pos source_length))
        (leaves destination_start n (pos destination_length)) _ p e in
    (
      stays-Within source_start n source_length x,
      stays-Within destination_start n destination_length y,
      sym z ∙ made-at source destination source_start destination_start n width,
    )

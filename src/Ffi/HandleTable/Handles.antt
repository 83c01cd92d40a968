-- ===== src/Ffi/HandleTable/Handles.antt =====
-- What handles name.
use native.Mathlib.Decide.{ℕ_discrete}
use compukter_vm.Prelude.{
  panic, ◌↔◌, ℕ, ◌<◌, ◌≡◌, ◌≢◌, ◌⊎◌, inl, inr, refl, sym, subst, ap, ap₂, ◌∙◌, Option, none, some,
  true, false, [], ◌∷◌, ◌++◌, length, get_elem?, set, position, Result, ok, err, arith, ◌==◌,
  if◌then◌else◌, get_elem?-lt, get_elem?-set_self, get_elem?-set_ne, get_elem?-snoc, position-some,
  Option-cases, Bool-cases,
}
use compukter_vm.Ffi.HandleTable.{
  poisoned, HandleError, Slot, HandleTable, is_vacant, new_cell, insert, resolve, encode_handle,
  decode_handle,
}

-- The numbers of generations that a `u32` holds, 0 left out.
abbrev pub Generations : {T : Type 0} → HandleTable T → Type 0
Generations t =
    (i : ℕ) (s : Slot)
    → get_elem? t.slots i ≡ some s
    → (0 < s.generation) × (s.generation < 4294967296)

-- A handle leads back to the place and the generation that it was made of.
pub decode-encode :
    (index generation handle : ℕ)
    → 0 < generation
    → generation < 4294967296
    → encode_handle index generation ≡ ok handle
    → decode_handle handle ≡ ok (index, generation)
unfolding encode_handle decode_handle
decode-encode index generation handle lo hi e = ground arith

-- And it is made of them again.
pub encode-decode :
    (index generation handle : ℕ)
    → handle < 18446744073709551616
    → decode_handle handle ≡ ok (index, generation)
    → encode_handle index generation ≡ ok handle
unfolding encode_handle decode_handle
encode-decode index generation handle word e = ground arith

-- For a word of 64 bits and a generation that is a `u32` other than 0: the handle made of a place
-- and the generation is the word exactly where the word leads to that place and generation.
pub encode-decode_iff :
    (index generation handle : ℕ)
    → handle < 18446744073709551616
    → 0 < generation
    → generation < 4294967296
    → (encode_handle index generation ≡ ok handle) ↔ (decode_handle handle ≡ ok (index, generation))
encode-decode_iff index generation handle word lo hi =
    (decode-encode index generation handle lo hi, encode-decode index generation handle word)

module _ {T : Type 0} (value : T) (t : HandleTable T) where
  pub insert_broken : t.slots_broken ≡ true → insert value t ≡ (err poisoned, t)
  unfolding insert
  insert_broken e = ground (arith, e)

  pub insert_new :
      t.slots_broken ≡ false
      → position is_vacant t.slots ≡ none
      → insert value t ≡ (
        encode_handle (length t.slots) 1,
        record t {
          slots = t.slots ++ (record { generation = 1; value = some (length t.cells) }) ∷ [];
          cells = t.cells ++ new_cell value ∷ [];
        },
      )
  unfolding insert
  insert_new e f = ground (arith, e, f)

  pub insert_free :
      (i : ℕ) (slot : Slot)
      → t.slots_broken ≡ false
      → position is_vacant t.slots ≡ some i
      → get_elem? t.slots i ≡ some slot
      → insert value t ≡ (
        encode_handle i slot.generation,
        record t {
          slots = set t.slots i (record slot { value = some (length t.cells) });
          cells = t.cells ++ new_cell value ∷ [];
        },
      )
  unfolding insert
  insert_free i slot e f g = ground (arith, e, f, g)

slot_eq : (s : Slot) → is_vacant s ≡ true → s ≡ record { generation = s.generation; value = none }
slot_eq s e = ground arith

-- The slot of a handle that was just made.
record Made {T : Type 0} (value : T) (t u : HandleTable T) (handle : ℕ) : Type 0 where
  pub index : ℕ
  pub generation : ℕ
  pub named : encode_handle index generation ≡ ok handle
  pub before : t.slots_broken ≡ false
  pub after : u.slots_broken ≡ false
  pub cells : u.cells ≡ t.cells ++ new_cell value ∷ []
  pub stored :
      get_elem? u.slots index
      ≡ some (record { generation = generation; value = some (length t.cells) })
  pub unused :
      ((generation ≡ 1) × (index ≡ length t.slots))
      ⊎ (get_elem? t.slots index ≡ some (record { generation = generation; value = none }))
  pub others : (j : ℕ) → j ≢ index → get_elem? u.slots j ≡ get_elem? t.slots j

insert-Made :
    {T : Type 0} (value : T) (t u : HandleTable T) (handle : ℕ)
    → insert value t ≡ (ok handle, u)
    → Made value t u handle
insert-Made value t u handle e = elim (Bool-cases t.slots_broken) [
  | inl broke ↦ absurd (cc (e, insert_broken value t broke))
  | inr sound ↦ elim (Option-cases (position is_vacant t.slots)) [
    | inl none_free ↦
        let q = sym (insert_new value t sound none_free) ∙ e in
        let new : Slot = record { generation = 1; value = some (length t.cells) } in
        subst (λ o. Made value t o handle) (ap (λ o. o.1) q)
          (record {
            index = length t.slots;
            generation = 1;
            named = ap (λ o. o.0) q;
            before = sound;
            after = sound;
            cells = refl;
            stored = ground (arith, get_elem?-snoc t.slots new (length t.slots));
            unused = inl (refl, refl);
            others = λ j ne. ground (arith, get_elem?-snoc t.slots new j);
          })
    | inr (i, free) ↦
        let (slot, at_i, vacant) = position-some is_vacant t.slots i free in
        let q = sym (insert_free value t i slot sound free at_i) ∙ e in
        let new : Slot = record slot { value = some (length t.cells) } in
        subst (λ o. Made value t o handle) (ap (λ o. o.1) q)
          (record {
            index = i;
            generation = slot.generation;
            named = ap (λ o. o.0) q;
            before = sound;
            after = sound;
            cells = refl;
            stored = get_elem?-set_self t.slots i new (get_elem?-lt t.slots i at_i);
            unused = inr (at_i ∙ ap some (slot_eq slot vacant));
            others = λ j ne. get_elem?-set_ne t.slots i j new (λ same. ne (sym same));
          })
  ]
]

abbrev ok_word : ℕ → Result HandleError ℕ
ok_word = ok

ok_eq : (a b : ℕ) → ok_word a ≡ ok b → a ≡ b
ok_eq a b e = cc e

-- The cell that a handle names.
unfoldable pub named_cell : {T : Type 0} → ℕ → HandleTable T → Option ℕ
named_cell handle t = elim ((resolve handle t).0) [ ok address ↦ some address | _ ↦ none ]

module _ {T : Type 0} (value : T) (t u : HandleTable T) (handle other : ℕ)
    (m : Made value t u handle) (known : decode_handle handle ≡ ok (m.index, m.generation))
    (word : other < 18446744073709551616) where
  old_at :
      (get_elem? t.slots m.index ≡ none)
      ⊎ (get_elem? t.slots m.index ≡ some (record { generation = m.generation; value = none }))
  old_at = elim (m.unused) [
    | inr vacant ↦ inr vacant
    | inl new ↦ elim (Option-cases (get_elem? t.slots m.index)) [
      | inl missing ↦ inl missing
      | inr (s, g) ↦ absurd (omega (arith, get_elem?-lt t.slots m.index g, new.1))
    ]
  ]

  named-other :
      (o : Result HandleError (ℕ × ℕ))
      → decode_handle other ≡ o
      → other ≢ handle
      → named_cell other u ≡ named_cell other t
  unfolding named_cell resolve
  named-other (err e) d ne = ground (arith, d)
  named-other panic d ne = ground (arith, d)
  named-other (ok (j, g)) d ne = elim (ℕ_discrete j m.index) [
    | no away ↦ ground (arith, d, m.others j away, m.before, m.after)
    | yes same ↦
        let differ : g ≢ m.generation = λ q.
          ne (
            ok_eq _ _
              (sym (encode-decode j g other word d) ∙ ap₂ encode_handle same q ∙ m.named)) in
        let stored = ap (get_elem? u.slots) same ∙ m.stored in
        elim old_at [
          | inl missing ↦
              ground
                (arith, d, ap (get_elem? t.slots) same ∙ missing, differ, stored, m.before, m.after)
          | inr vacant ↦
              ground
                (arith, d, ap (get_elem? t.slots) same ∙ vacant, differ, stored, m.before, m.after)
        ]
  ]

-- In a table whose generations fit into a `u32` and are not 0, an insertion that succeeds gives a
-- handle that names a new cell with the value, and every other word of 64 bits names what it named
-- before, if anything.
pub insert-named :
    {T : Type 0} (value : T) (t u : HandleTable T) (handle other : ℕ)
    → Generations t
    → insert value t ≡ (ok handle, u)
    → other < 18446744073709551616
    → (named_cell other u ≡ (if other == handle then some (length t.cells) else named_cell other t))
      × (get_elem? u.cells (length t.cells) ≡ some (new_cell value))
unfolding named_cell resolve
insert-named value t u handle other fits e word =
    let m = insert-Made value t u handle e in
    let known = decode-encode m.index m.generation handle (range m) (range_hi m) m.named in
    (
      elim (ℕ_discrete other handle) [
        | yes same ↦ ground (arith, same, named_new m known)
        | no ne ↦ ground (
          arith,
          ne,
          named-other value t u handle other m known word (decode_handle other) refl ne,
        )
      ],
      rw (m.cells) (ground (arith, get_elem?-snoc t.cells (new_cell value) (length t.cells))),
    )
  where
    range : (m : Made value t u handle) → 0 < m.generation
    range m = elim (m.unused) [ inl q ↦ omega (arith, q.0) | inr q ↦ (fits m.index _ q).0 ]

    range_hi : (m : Made value t u handle) → m.generation < 4294967296
    range_hi m = elim (m.unused) [ inl q ↦ omega (arith, q.0) | inr q ↦ (fits m.index _ q).1 ]

    named_new :
        (m : Made value t u handle)
        → decode_handle handle ≡ ok (m.index, m.generation)
        → named_cell handle u ≡ some (length t.cells)
    named_new m known = ground (arith, known, m.stored, m.after)

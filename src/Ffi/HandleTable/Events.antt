-- ===== src/Ffi/HandleTable/Events.antt =====
-- What calls on the table of ffi/src/handle_table.rs do to a slot and a cell that were given up.
use native.Mathlib.Decide.{ℕ_discrete}
use compukter_vm.Prelude.{
  Bool-cases, position, position-some, get_elem?-set_self, get_elem?-set_ne, ℕ, ◌+◌, ◌≤◌, ◌≡◌, ◌≢◌,
  ◌⊎◌, inl, inr, refl, ap, ◌∙◌, Option, none, some, List, [], ◌∷◌, ◌++◌, length, get_elem?, Result,
  ok, err, panic, continue, pure, ◌>>=◌, arith, get_elem?-lt, get_elem?-snoc, Option-cases,
}
use compukter_vm.Ffi.HandleTable
use compukter_vm.Ffi.HandleTable.{
  locked, conclude, unlock, is_vacant, Slot, Cell, HandleTable, Lock, HandleError, M, stale,
  poisoned, busy, unlocked, new_cell, next_generation, resolve, try_lock, act, with_cell, give_up,
  close_cell, consume_cell, Consumed, answer, done, restored, decode_handle,
}
use compukter_vm.Ffi.HandleTable.Handles.{insert_broken, insert_new, insert_free}
use compukter_vm.Ffi.HandleTable.Cells.{
  Gone, Turns, Stays, Gone-cell, then-Turns, resolve-Stays, try_lock-Stays, try_lock-none,
  act-Stays, with_cell-Stays, give_up-Turns,
}

-- The calls of any threads. One that runs its action for long `enters` a cell and then `leaves` it.
pub data Event (T : Type 0) : Type 0 where
  insert : T → Event T
  with_value : (handle : ℕ) (action : T → Option (Unit {0}) × T) → Event T
  enters : (address : ℕ) → Event T
  leaves : (address : ℕ) (action : T → Option (Unit {0}) × T) → Event T
  close : (handle : ℕ) → Event T
  consume_if : (handle : ℕ) (action : T → Option (Consumed T (Unit {0}) (Unit {0}))) → Event T

module _ {T : Type 0} where
  abbrev content_of : ℕ → HandleTable T → Option T
  content_of address t = elim (get_elem? t.cells address) [ none ↦ none | some cell ↦ cell.content ]

  unfoldable pub happen : Event T → HandleTable T → HandleTable T
  happen (insert value) t = (HandleTable.insert value t).1
  happen (with_value handle action) t = (HandleTable.with_value handle action t).1
  happen (enters address) t = (try_lock address t).1
  happen (leaves address action) t = (act action address (content_of address t) t).1
  happen (close handle) t = (HandleTable.close handle t).1
  happen (consume_if handle action) t = (HandleTable.consume_if handle action t).1

  unfoldable pub happens : List (Event T) → HandleTable T → HandleTable T
  happens [] t = t
  happens (e ∷ es) t = happens es (happen e t)

module _ {T : Type 0} (index g address : ℕ) where
  answer-Turns :
      {R E : Type 0} {t : HandleTable T} (j i generation at_ : ℕ) (o : Option (Consumed T R E))
      → Gone index g j address t
      → at_ ≢ address
      → Turns index g address j (answer i generation at_ o t)
  unfolding answer
  answer-Turns j i generation at_ none h ne =
      inl (Gone-cell index g address j at_ _ h (λ same. absurd (ne same)))
  answer-Turns {R} {E} {t} j i generation at_ (some (done r)) h ne =
      go (give_up i generation at_ none t)
        (give_up-Turns index g address j i generation at_ none h (λ same. absurd (ne same)))
    where
      go :
          (o : Result HandleError (Unit {0}) × HandleTable T)
          → Turns index g address j o
          → Turns index g address j (continue (o.0) (λ _. pure {A = R ⊎ E} (inl r)) (o.1))
      go (ok u, t') h' = h'
      go (err z, t') h' = h'
      go (panic, t') h' = h'
  answer-Turns j i generation at_ (some (restored e v)) h ne =
      inl (Gone-cell index g address j at_ _ h (λ same. absurd (ne same)))

  consume_cell-Turns :
      {R E : Type 0} {t : HandleTable T} (j i generation at_ : ℕ)
      (action : T → Option (Consumed T R E)) (content : Option T)
      → Gone index g j address t
      → (at_ ≡ address → content ≡ none)
      → Turns index g address j (consume_cell action i generation at_ content t)
  unfolding consume_cell
  consume_cell-Turns j i generation at_ action none h e =
      inl (Gone-cell index g address j at_ _ h (λ _. refl))
  consume_cell-Turns j i generation at_ action (some v) h e =
      answer-Turns j i generation at_ (action v) h (λ same. absurd (cc (e same)))

  close_cell-Turns :
      {t : HandleTable T} (j i generation at_ : ℕ) (content : Option T)
      → Gone index g j address t
      → (at_ ≡ address → content ≡ none)
      → Turns index g address j (close_cell i generation at_ content t)
  unfolding close_cell
  close_cell-Turns j i generation at_ none h e =
      inl (Gone-cell index g address j at_ _ h (λ _. refl))
  close_cell-Turns j i generation at_ (some v) h e =
      give_up-Turns index g address j i generation at_ (some v) h e

  -- What `close` and `consume_if` share: they look the cell up and try its lock.
  found-Turns :
      {A : Type 0} {t : HandleTable T} (j handle : ℕ) (f : ℕ → ℕ → ℕ → Option T → M T A)
      → Gone index g j address t
      → ((i generation at_ : ℕ) (content : Option T) (t' : HandleTable T)
          → Gone index g j address t'
          → (at_ ≡ address → content ≡ none)
          → Turns index g address j (f i generation at_ content t'))
      → (o : Result HandleError (ℕ × ℕ))
      → Turns index g address j
          (continue o (λ q. resolve handle >>= λ at_. try_lock at_ >>= f (q.0) (q.1) at_) t)
  found-Turns j handle f h rest (err z) = inl h
  found-Turns j handle f h rest panic = inl h
  found-Turns j handle f h rest (ok (i, generation)) =
      then-Turns index g address j (resolve handle) _ (resolve-Stays index g address j handle h)
        λ at_ t1 e1 h1.
          then-Turns index g address j (try_lock at_) _ (try_lock-Stays index g address j at_ h1)
            λ content t2 e2 h2.
              rest i generation at_ content t2 h2
                (try_lock-none index g address j at_ content h1 e2)

  Gone-more :
      {t : HandleTable T} (j : ℕ) (c : Cell T)
      → Gone index g j address t
      → Gone index g j address (record t { cells = t.cells ++ c ∷ [] })
  Gone-more {t} j c h = record {
    slot = h.slot;
    at_slot = h.at_slot;
    turn = h.turn;
    cell = h.cell;
    at_cell = ground (
      arith,
      get_elem?-snoc t.cells c address,
      get_elem?-lt t.cells address h.at_cell,
      h.at_cell,
    );
    empty = h.empty;
  }

  insert-Stays :
      {t : HandleTable T} (j : ℕ) (value : T)
      → Gone index g j address t
      → Stays index g address j (HandleTable.insert value t)
  unfolding HandleTable.insert
  insert-Stays {t} j value h = elim (Bool-cases t.slots_broken) [
    | inl broke ↦ rw (insert_broken value t broke) h
    | inr sound ↦ elim (Option-cases (position is_vacant t.slots)) [
      | inl none_free ↦
          let more = Gone-more j (new_cell value) h in
          rw (insert_new value t sound none_free) (record {
            slot = h.slot;
            at_slot = ground (
              arith,
              get_elem?-snoc t.slots (record { generation = 1; value = some (length t.cells) })
                  index,
              get_elem?-lt t.slots index h.at_slot,
              h.at_slot,
            );
            turn = h.turn;
            cell = more.cell;
            at_cell = more.at_cell;
            empty = more.empty;
          })
      | inr (i, free) ↦
          let (slot, at_i, vacant) = position-some is_vacant t.slots i free in
          let more = Gone-more j (new_cell value) h in
          let new : Slot = record slot { value = some (length t.cells) } in
          rw (insert_free value t i slot sound free at_i) (elim (ℕ_discrete i index) [
            | yes same ↦ record {
              slot = new;
              at_slot =
                  rw same
                    (get_elem?-set_self t.slots index new (get_elem?-lt t.slots index h.at_slot));
              turn = ground (arith, at_i, h.at_slot, same, h.turn);
              cell = more.cell;
              at_cell = more.at_cell;
              empty = more.empty;
            }
            | no other ↦ record {
              slot = h.slot;
              at_slot = get_elem?-set_ne t.slots i index new other ∙ h.at_slot;
              turn = h.turn;
              cell = more.cell;
              at_cell = more.at_cell;
              empty = more.empty;
            }
          ])
    ]
  ]

  happen-Turns :
      (e : Event T) {t : HandleTable T} (j : ℕ)
      → Gone index g j address t
      → Gone index g j address (happen e t) ⊎ Gone index g (j + 1) address (happen e t)
  unfolding happen HandleTable.with_value HandleTable.close HandleTable.consume_if
  happen-Turns (insert value) j h = inl (insert-Stays j value h)
  happen-Turns (with_value handle action) j h =
      then-Turns index g address j (resolve handle) (with_cell action)
        (resolve-Stays index g address j handle h)
        λ at_ t' e h'. with_cell-Stays index g address j at_ action h'
  happen-Turns (enters at_) j h = inl (try_lock-Stays index g address j at_ h)
  happen-Turns (leaves at_ action) {t} j h = inl (
      act-Stays index g address j at_ action (content_of at_ t) h
        (λ same. ground (arith, ap (get_elem? t.cells) same, h.at_cell, h.empty)))
  happen-Turns (close handle) j h =
      found-Turns j handle close_cell h
        (λ i generation at_ content t' h' e. close_cell-Turns j i generation at_ content h' e)
        (decode_handle handle)
  happen-Turns (consume_if handle action) j h =
      found-Turns j handle (consume_cell action) h
        (λ i generation at_ content t' h' e.
          consume_cell-Turns j i generation at_ action content h' e)
        (decode_handle handle)

  -- A history turns the generation at most once for each call.
  pub happens-Turns :
      (es : List (Event T)) {t : HandleTable T} (j : ℕ)
      → Gone index g j address t
      → (k : ℕ) × (j ≤ k) × (k ≤ j + length es) × Gone index g k address (happens es t)
  unfolding happens
  happens-Turns [] j h = (j, omega arith, omega arith, h)
  happens-Turns (e ∷ es) {t} j h = elim (happen-Turns e j h) [
    | inl h' ↦ let (k, lo, hi, u) = happens-Turns es j h' in (k, lo, omega arith, u)
    | inr h' ↦ let (k, lo, hi, u) = happens-Turns es (j + 1) h' in (k, omega arith, omega arith, u)
  ]

-- ===== src/Ffi/HandleTable/Stale.antt =====
-- Histories of calls after a handle of ffi/src/handle_table.rs was closed.
use compukter_vm.Prelude.{
  subst, length-set, get_elem?-set_self, ℕ, ◌<◌, ◌≡◌, ◌⊎◌, inl, inr, refl, sym, ap, ◌∙◌, Option,
  none, some, List, length, get_elem?, set, Result, ok, err, panic, continue, ◌>>=◌, arith,
  get_elem?-lt, Option-cases,
}
use compukter_vm.Ffi.HandleTable
use compukter_vm.Ffi.HandleTable.{
  locked, conclude, unlock, is_vacant, Slot, Cell, HandleTable, Lock, HandleError, M, stale,
  poisoned, busy, unlocked, new_cell, next_generation, resolve, try_lock, act, with_cell, give_up,
  close_cell, consume_cell, Consumed, answer, done, restored, decode_handle,
}
use compukter_vm.Ffi.HandleTable.Cells.{
  Gone, turned-ne, turned-suc, turned_zero, resolve_same, retire_cases,
}
use compukter_vm.Ffi.HandleTable.Events.{Event, happens, happens-Turns}

-- What ran first in a method that succeeded.
then-ok :
    {T A B : Type 0} (m : M T A) (f : A → M T B) (t u : HandleTable T) (b : B)
    → (m >>= f) t ≡ (ok b, u)
    → (a : A) × (t' : HandleTable T) × (m t ≡ (ok a, t')) × (f a t' ≡ (ok b, u))
then-ok {T} {A} {B} m f t u b e = go (m t) refl e
  where
    go :
        (o : Result HandleError A × HandleTable T)
        → m t ≡ o
        → continue (o.0) f (o.1) ≡ (ok b, u)
        → (a : A) × (t' : HandleTable T) × (m t ≡ (ok a, t')) × (f a t' ≡ (ok b, u))
    go (ok a, t') q r = (a, t', q, r)
    go (err z, t') q r = absurd (cc r)
    go (panic, t') q r = absurd (cc r)

decode_range : (handle i g : ℕ) → decode_handle handle ≡ ok (i, g) → (0 < g) × (g < 4294967296)
unfolding decode_handle
decode_range handle i g d = ground arith

module _ {T : Type 0} where
  give_up-Gone :
      (i g at_ : ℕ) (v : T) (t u : HandleTable T)
      → 0 < g
      → g < 4294967296
      → at_ < length t.cells
      → give_up i g at_ (some v) t ≡ (ok tt, u)
      → Gone i g 1 at_ u
  unfolding give_up conclude unlock
  give_up-Gone i g at_ v t u lo hi in_cells e = elim (retire_cases i g at_ t) [
    | inl (z, fails) ↦ absurd (ground (arith, fails, e))
    | inr (slot, at_slot, own, turns) ↦
        let slots' : List Slot =
          set t.slots i (record { generation = next_generation slot.generation; value = none }) in
        let cells' : List (Cell T) = set t.cells at_ (record { lock = unlocked; content = none }) in
        let q : record t { slots = slots'; cells = cells' } ≡ u = ground (arith, turns, e) in
        subst (Gone i g 1 at_) q (record {
          slot = record { generation = next_generation slot.generation; value = none };
          at_slot = get_elem?-set_self t.slots i _ (get_elem?-lt t.slots i at_slot);
          turn = ap next_generation (own ∙ sym (turned_zero g lo hi)) ∙ turned-suc g 0;
          cell = record { lock = unlocked; content = none };
          at_cell = get_elem?-set_self t.cells at_ _ in_cells;
          empty = refl;
        })
  ]

  close_cell-Gone :
      (i g address : ℕ) (content : Option T) (t u : HandleTable T)
      → 0 < g
      → g < 4294967296
      → address < length t.cells
      → close_cell i g address content t ≡ (ok tt, u)
      → Gone i g 1 address u
  unfolding close_cell
  close_cell-Gone i g address none t u lo hi in_cells e = absurd (cc e)
  close_cell-Gone i g address (some v) t u lo hi in_cells e =
      give_up-Gone i g address v t u lo hi in_cells e

  try_lock-cells :
      (address : ℕ) (content : Option T) (t u : HandleTable T)
      → try_lock address t ≡ (ok content, u)
      → address < length u.cells
  unfolding try_lock
  try_lock-cells address content t u e = elim (Option-cases (get_elem? t.cells address)) [
    | inl missing ↦ absurd (ground (arith, e, missing))
    | inr (cell, g) ↦ ground (
      arith,
      e,
      g,
      get_elem?-lt t.cells address g,
      length-set t.cells address (record cell { lock = locked }),
    )
  ]

  close_found :
      (handle address i g : ℕ) (t : HandleTable T)
      → decode_handle handle ≡ ok (i, g)
      → (resolve handle t).0 ≡ ok address
      → HandleTable.close handle t ≡ (try_lock address >>= close_cell i g address) t
  unfolding HandleTable.close
  close_found handle address i g t d r = ground (arith, d, r, resolve_same handle t)

  -- A close that succeeds leaves the slot one generation further, and the cell empty.
  close-Gone :
      (handle address i g : ℕ) (t u : HandleTable T)
      → decode_handle handle ≡ ok (i, g)
      → (resolve handle t).0 ≡ ok address
      → HandleTable.close handle t ≡ (ok tt, u)
      → Gone i g 1 address u
  close-Gone handle address i g t u d r e =
      let (content, t', locks, closes) =
        then-ok (try_lock address) (close_cell i g address) t u tt
          (sym (close_found handle address i g t d r) ∙ e) in
      let (lo, hi) = decode_range handle i g d in
      close_cell-Gone i g address content t' u lo hi (try_lock-cells address content t t' locks)
        closes

  resolve-Gone :
      (i g k address handle : ℕ) (v : HandleTable T)
      → Gone i g k address v
      → decode_handle handle ≡ ok (i, g)
      → 0 < k
      → k < 4294967295
      → ((resolve handle v).0 ≡ err stale) ⊎ ((resolve handle v).0 ≡ err poisoned)
  unfolding resolve
  resolve-Gone i g k address handle v h d lo hi =
      let range = decode_range handle i g d in
      ground (arith, d, h.at_slot, h.turn, turned-ne g k range.0 range.1 lo hi)

  with_cell-Gone :
      {R : Type 0} (i g k address : ℕ) (v : HandleTable T) (action : T → Option R × T)
      → Gone i g k address v
      → (with_cell action address v).0 ≡ err stale
        ⊎ (with_cell action address v).0 ≡ err busy
        ⊎ (with_cell action address v).0 ≡ err poisoned
  unfolding with_cell
  with_cell-Gone i g k address v action h = ground (arith, h.at_cell, h.empty)

  -- For a handle whose close succeeded while it named the cell `address`: after any further calls of
  -- any threads, fewer than 2^32 - 2 in number, looking the handle up fails, and a thread that
  -- looked it up before and now comes to the cell fails too and does not run its action.
  pub happens-stale :
      {R : Type 0} (handle address i g : ℕ) (t u : HandleTable T) (es : List (Event T))
      (action : T → Option R × T)
      → decode_handle handle ≡ ok (i, g)
      → (resolve handle t).0 ≡ ok address
      → HandleTable.close handle t ≡ (ok tt, u)
      → length es < 4294967294
      → let v = happens es u in
        (((resolve handle v).0 ≡ err stale) ⊎ ((resolve handle v).0 ≡ err poisoned))
        × ((with_cell action address v).0 ≡ err stale
            ⊎ (with_cell action address v).0 ≡ err busy
            ⊎ (with_cell action address v).0 ≡ err poisoned)
  happens-stale handle address i g t u es action d r e few =
      let (k, lo, hi, h) =
        happens-Turns i g address es 1 (close-Gone handle address i g t u d r e) in
      (
        resolve-Gone i g k address handle (happens es u) h d (omega arith) (omega arith),
        with_cell-Gone i g k address (happens es u) action h,
      )

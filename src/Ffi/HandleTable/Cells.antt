-- ===== src/Ffi/HandleTable/Cells.antt =====
-- A value that was given up stays gone: its slot moves through the generations, its cell stays empty.
use native.Mathlib.Decide.{ℕ_discrete}
use compukter_vm.Prelude.{
  ℕ, ◌+◌, ◌-◌, ◌%◌, ◌<◌, ◌≡◌, ◌≢◌, ◌⊎◌, inl, inr, continue, ◌>>=◌, refl, ap, ◌∙◌, Option, none,
  some, get_elem?, set, Result, ok, err, panic, arith, ◌==◌, get_elem?-lt, get_elem?-set_self,
  get_elem?-set_ne, Option-cases, Bool-cases, opt_eq,
}
use compukter_vm.Ffi.HandleTable.{
  stale, invalid, poisoned, Slot, Cell, HandleTable, HandleError, M, locked, unlocked, settle,
  conclude, next_generation, resolve, try_lock, act, with_cell, retire, give_up,
}

-- The generation that follows `g` after `j` changes: 2^32 - 1 of them come in turn.
abbrev pub turned : ℕ → ℕ → ℕ
turned g j = (g - 1 + j) % 4294967295 + 1

pub turned_zero : (g : ℕ) → 0 < g → g < 4294967296 → turned g 0 ≡ g
turned_zero g lo hi = omega arith

pub turned-suc : (g j : ℕ) → next_generation (turned g j) ≡ turned g (j + 1)
unfolding next_generation
turned-suc g j = ground arith

pub turned-ne : (g j : ℕ) → 0 < g → g < 4294967296 → 0 < j → j < 4294967295 → turned g j ≢ g
turned-ne g j lo hi some_turn few e = omega arith

pub resolve_same : {T : Type 0} (handle : ℕ) (t : HandleTable T) → (resolve handle t).1 ≡ t
unfolding resolve
resolve_same handle t = ground arith

-- A lock that is not got changes nothing.
pub try_lock_cases :
    {T : Type 0} (at_ : ℕ) (t : HandleTable T)
    → ((try_lock at_ t).1 ≡ t)
      ⊎ ((cell : Cell T) × (get_elem? t.cells at_ ≡ some cell)
          × (try_lock at_ t ≡ (
            ok cell.content,
            record t { cells = set t.cells at_ (record cell { lock = locked }) },
          )))
unfolding try_lock
try_lock_cases at_ t = ground arith

-- A slot that is not given up is not changed.
pub retire_cases :
    {T : Type 0} (i generation at_ : ℕ) (t : HandleTable T)
    → ((e : HandleError) × (retire i generation at_ t ≡ (err e, t)))
      ⊎ ((slot : Slot) × (get_elem? t.slots i ≡ some slot)
          × (slot.generation ≡ generation)
          × (retire i generation at_ t ≡ (
            ok tt,
            record t {
              slots =
                  set t.slots i
                    (record { generation = next_generation slot.generation; value = none });
            },
          )))
unfolding retire
retire_cases i generation at_ t = elim (Bool-cases t.slots_broken) [
  | inl broke ↦ inl (poisoned, ground (arith, broke))
  | inr sound ↦ elim (Option-cases (get_elem? t.slots i)) [
    | inl missing ↦ inl (invalid, ground (arith, sound, missing))
    | inr (slot, g) ↦ elim (Bool-cases (slot.generation == generation)) [
      | inr other ↦ inl (stale, ground (arith, sound, g, other))
      | inl own ↦ elim (Bool-cases (opt_eq slot.value (some at_))) [
        | inr moved ↦ inl (stale, ground (arith, sound, g, own, moved))
        | inl holds ↦ inr (slot, g, ground arith, ground (arith, sound, g, own, holds))
      ]
    ]
  ]
]

-- The slot `index` is `j` changes past the generation `g`, and the cell `address` is empty.
pub record Gone {T : Type 0} (index g j address : ℕ) (t : HandleTable T) : Type 0 where
  pub slot : Slot
  pub at_slot : get_elem? t.slots index ≡ some slot
  pub turn : slot.generation ≡ turned g j
  pub cell : Cell T
  pub at_cell : get_elem? t.cells address ≡ some cell
  pub empty : cell.content ≡ none

module _ {T : Type 0} (index g address : ℕ) where
  -- A change of one cell, which leaves that cell empty.
  pub Gone-cell :
      {t : HandleTable T} (j at_ : ℕ) (c : Cell T)
      → Gone index g j address t
      → (at_ ≡ address → c.content ≡ none)
      → Gone index g j address (record t { cells = set t.cells at_ c })
  Gone-cell {t} j at_ c h keeps = elim (ℕ_discrete at_ address) [
    | yes same ↦ record {
      slot = h.slot;
      at_slot = h.at_slot;
      turn = h.turn;
      cell = c;
      at_cell =
          rw same (get_elem?-set_self t.cells address c (get_elem?-lt t.cells address h.at_cell));
      empty = keeps same;
    }
    | no other ↦ record {
      slot = h.slot;
      at_slot = h.at_slot;
      turn = h.turn;
      cell = h.cell;
      at_cell = get_elem?-set_ne t.cells at_ address c other ∙ h.at_cell;
      empty = h.empty;
    }
  ]

  -- A change of one slot, which keeps or turns the generation.
  Gone-slot :
      {t : HandleTable T} (j at_ : ℕ) (old new : Slot)
      → Gone index g j address t
      → get_elem? t.slots at_ ≡ some old
      → new.generation ≡ next_generation old.generation
      → Gone index g j address (record t { slots = set t.slots at_ new })
        ⊎ Gone index g (j + 1) address (record t { slots = set t.slots at_ new })
  Gone-slot {t} j at_ old new h at_old next = elim (ℕ_discrete at_ index) [
    | yes same ↦ inr (record {
      slot = new;
      at_slot =
          rw same (get_elem?-set_self t.slots index new (get_elem?-lt t.slots index h.at_slot));
      turn =
          next
          ∙ ap next_generation (ground (arith, h.at_slot, at_old, same, h.turn))
          ∙ turned-suc g j;
      cell = h.cell;
      at_cell = h.at_cell;
      empty = h.empty;
    })
    | no other ↦ inl (record {
      slot = h.slot;
      at_slot = get_elem?-set_ne t.slots at_ index new other ∙ h.at_slot;
      turn = h.turn;
      cell = h.cell;
      at_cell = h.at_cell;
      empty = h.empty;
    })
  ]

  -- What a method may do to it.
  abbrev pub Stays : {A : Type 0} → ℕ → Result HandleError A × HandleTable T → Type 0
  Stays j (r, t) = Gone index g j address t

  abbrev pub Turns : {A : Type 0} → ℕ → Result HandleError A × HandleTable T → Type 0
  Turns j (r, t) = Gone index g j address t ⊎ Gone index g (j + 1) address t

  -- One method after another, the first of which turns nothing.
  pub then-Turns :
      {A B : Type 0} {t : HandleTable T} (j : ℕ) (m : M T A) (f : A → M T B)
      → Stays j (m t)
      → ((a : A) (t' : HandleTable T)
          → m t ≡ (ok a, t')
          → Gone index g j address t'
          → Turns j (f a t'))
      → Turns j ((m >>= f) t)
  then-Turns {A} {B} {t} j m f first rest = go (m t) refl first
    where
      go :
          (o : Result HandleError A × HandleTable T)
          → m t ≡ o
          → Stays j o
          → Turns j (continue (o.0) f (o.1))
      go (ok a, t') e h = rest a t' e h
      go (err z, t') e h = inl h
      go (panic, t') e h = inl h

  pub resolve-Stays :
      {t : HandleTable T} (j handle : ℕ) → Gone index g j address t → Stays j (resolve handle t)
  unfolding resolve
  resolve-Stays {t} j handle h = rw (resolve_same handle t) h

  pub try_lock-Stays :
      {t : HandleTable T} (j at_ : ℕ) → Gone index g j address t → Stays j (try_lock at_ t)
  try_lock-Stays {t} j at_ h = elim (try_lock_cases at_ t) [
    | inl same ↦ rw same h
    | inr (cell, at_cell, locks) ↦ rw locks (
        Gone-cell j at_ (record cell { lock = locked }) h
          (λ same. ground (arith, h.at_cell, h.empty, at_cell, ap (get_elem? t.cells) same)))
  ]

  -- What stands in the empty cell is nothing.
  pub try_lock-none :
      {t t' : HandleTable T} (j at_ : ℕ) (content : Option T)
      → Gone index g j address t
      → try_lock at_ t ≡ (ok content, t')
      → at_ ≡ address
      → content ≡ none
  unfolding try_lock
  try_lock-none {t} j at_ content h e same =
      ground (arith, h.at_cell, h.empty, ap (get_elem? t.cells) same)

  pub act-Stays :
      {R : Type 0} {t : HandleTable T} (j at_ : ℕ) (action : T → Option R × T) (content : Option T)
      → Gone index g j address t
      → (at_ ≡ address → content ≡ none)
      → Stays j (act action at_ content t)
  unfolding act settle
  act-Stays j at_ action none h e = Gone-cell j at_ _ h (λ _. refl)
  act-Stays {R} {t} j at_ action (some v) h e = go (action v)
    where
      go : (o : Option R × T) → Stays j (settle at_ o t)
      go (some r, after) = Gone-cell j at_ _ h (λ same. absurd (cc (e same)))
      go (none, after) = Gone-cell j at_ _ h (λ same. absurd (cc (e same)))

  pub with_cell-Stays :
      {R : Type 0} {t : HandleTable T} (j at_ : ℕ) (action : T → Option R × T)
      → Gone index g j address t
      → Turns j (with_cell action at_ t)
  unfolding with_cell
  with_cell-Stays j at_ action h =
      then-Turns j (try_lock at_) (act action at_) (try_lock-Stays j at_ h)
        λ content t' e h'. inl (act-Stays j at_ action content h' (try_lock-none j at_ content h e))

  retire-Turns :
      {t : HandleTable T} (j i generation at_ : ℕ)
      → Gone index g j address t
      → Turns j (retire i generation at_ t)
  retire-Turns {t} j i generation at_ h = elim (retire_cases i generation at_ t) [
    | inl (e, fails) ↦ inl (rw fails h)
    | inr (slot, at_slot, own, turns) ↦ rw turns (
        Gone-slot j i slot (record { generation = next_generation slot.generation; value = none }) h
          at_slot refl)
  ]

  pub give_up-Turns :
      {t : HandleTable T} (j i generation at_ : ℕ) (content : Option T)
      → Gone index g j address t
      → (at_ ≡ address → content ≡ none)
      → Turns j (give_up i generation at_ content t)
  unfolding give_up conclude
  give_up-Turns {t} j i generation at_ content h e =
      go (retire i generation at_ t) (retire-Turns j i generation at_ h)
    where
      both :
          (n : ℕ) (c : Option T) {t' : HandleTable T}
          → Gone index g n address t'
          → (at_ ≡ address → c ≡ none)
          → Gone index g n address
              (record t' { cells = set t'.cells at_ (record { lock = unlocked; content = c }) })
      both n c h' e' = Gone-cell n at_ _ h' e'

      go :
          (o : Result HandleError (Unit {0}) × HandleTable T)
          → Turns j o
          → Turns j (conclude at_ content o)
      go (ok u, t') (inl h') = inl (both j none h' (λ _. refl))
      go (ok u, t') (inr h') = inr (both (j + 1) none h' (λ _. refl))
      go (err z, t') (inl h') = inl (both j content h' e)
      go (err z, t') (inr h') = inr (both (j + 1) content h' e)
      go (panic, t') (inl h') = inl (both j content h' e)
      go (panic, t') (inr h') = inr (both (j + 1) content h' e)

-- ===== src/Ffi/HandleTable.antt =====
-- ffi/src/handle_table.rs: the handles by which the host names values of the program. The table is
-- shared by threads; each value stands in a cell of its own behind a lock that is only tried.
-- A cell is addressed by its place in the list of all cells ever made, as an `Arc` points to it. A
-- method's steps are one transition where it holds the lock of the slots, and a value's lock is
-- held from `try_lock` to `unlock`. A `u32` and a `u64` are natural numbers.
pub mod Handles
pub mod Cells
pub mod Events
pub mod Stale
mod Tests
use compukter_vm.Prelude.{
  ℕ, ◌+◌, ◌-◌, ◌*◌, ◌/◌, ◌%◌, Option, none, some, Bool, true, false, List, [], ◌∷◌, ◌++◌, length,
  get_elem?, set, position, Result, ok, err, panic, ok_or, Method, ◌>>=◌, ◌>>◌, pure, raise, lift,
  gets, modify, guard, ltb, ◌==◌, opt_eq, if◌then◌else◌, not, ◌⊎◌, inl, inr,
}
use compukter_vm.Prelude.Word.{half_word}

pub data HandleError : Type 0 where
  invalid stale busy exhausted poisoned : HandleError

-- `Arc<Mutex<Option<T>>>` is the address of a cell.
pub record Slot : Type 0 where
  pub generation : ℕ
  pub value : Option ℕ

-- A lock is poisoned when a thread panics while it holds it.
pub data Lock : Type 0 where
  unlocked locked broken : Lock

pub record Cell (T : Type 0) : Type 0 where
  pub lock : Lock
  pub content : Option T

pub record HandleTable (T : Type 0) : Type 0 where
  pub slots : List Slot
  pub slots_broken : Bool
  pub cells : List (Cell T)

abbrev pub M : Type 0 → Type 0 → Type 0
M T A = Method (HandleTable T) HandleError A

module _ {T : Type 0} where
  abbrev pub default : HandleTable T
  default = record { slots = []; slots_broken = false; cells = [] }

-- `generation` in the upper half of the word, the slot's number from 1 on in the lower half
unfoldable pub encode_handle : ℕ → ℕ → Result HandleError ℕ
encode_handle index generation =
    if ltb (index + 1) half_word then ok (generation * half_word + (index + 1)) else err exhausted

unfoldable pub decode_handle : ℕ → Result HandleError (ℕ × ℕ)
decode_handle handle =
    if handle % half_word == 0
    then err invalid
    else if handle / half_word % half_word == 0
    then err invalid
    else ok (handle % half_word - 1, handle / half_word % half_word)

unfoldable pub next_generation : ℕ → ℕ
next_generation generation =
    let next = (generation + 1) % half_word in if next == 0 then 1 else next

abbrev pub is_vacant : Slot → Bool
is_vacant slot = opt_eq slot.value none

module _ {T : Type 0} where
  -- `self.slots.lock()`
  unfoldable pub lock_slots : M T (Unit {0})
  lock_slots t = (if t.slots_broken then err poisoned else ok tt, t)

  unfoldable pub slot_at : ℕ → M T Slot
  slot_at index t = (ok_or (get_elem? t.slots index) invalid, t)

  -- `Arc::new(Mutex::new(Some(value)))`
  abbrev pub new_cell : T → Cell T
  new_cell value = record { lock = unlocked; content = some value }

  unfoldable pub insert : T → M T ℕ
  unfolding lock_slots slot_at
  insert value = do
    lock_slots
    free ← gets (λ t. position is_vacant t.slots)
    address ← gets (λ t. length t.cells)
    modify (λ t. record t { cells = t.cells ++ new_cell value ∷ [] })
    elim free [
      | some index ↦ do
        slot ← slot_at index
        modify (λ t. record t { slots = set t.slots index (record slot { value = some address }) })
        lift (encode_handle index slot.generation)
      | none ↦ do
        index ← gets (λ t. length t.slots)
        modify (λ t. record t {
          slots = t.slots ++ (record { generation = 1; value = some address }) ∷ [];
        })
        lift (encode_handle index 1)
    ]

  -- The address of the value that a handle names.
  unfoldable pub resolve : ℕ → M T ℕ
  unfolding lock_slots slot_at
  resolve handle = do
    (index, generation) ← lift (decode_handle handle)
    lock_slots
    slot ← slot_at index
    guard (slot.generation == generation) stale
    lift (ok_or slot.value stale)

  -- `cell.try_lock()`; an address always stands for a cell.
  unfoldable pub try_lock : ℕ → M T (Option T)
  try_lock address t = elim (get_elem? t.cells address) [
    | none ↦ (panic, t)
    | some cell ↦ elim (cell.lock) [
      | unlocked ↦ (
        ok cell.content,
        record t { cells = set t.cells address (record cell { lock = locked }) },
      )
      | locked ↦ (err busy, t)
      | broken ↦ (err poisoned, t)
    ]
  ]

  -- The guard is dropped, with `content` in the cell.
  unfoldable pub unlock : ℕ → Option T → M T (Unit {0})
  unlock address content = modify (λ t. record t {
    cells = set t.cells address (record { lock = unlocked; content = content });
  })

  -- A panic of the caller's action breaks the lock.
  unfoldable pub break : ℕ → Option T → M T (Unit {0})
  break address content =
      modify (λ t. record t {
        cells = set t.cells address (record { lock = broken; content = content });
      })

module _ {T R : Type 0} where
  -- An action without a result panics.
  unfoldable pub settle : ℕ → Option R × T → M T R
  unfolding unlock break
  settle address (some result, after) = unlock address (some after) >> pure result
  settle address (none, after) = break address (some after) >> lift panic

  -- `value.as_mut().map(action).ok_or(Stale)` under the guard
  unfoldable pub act : (T → Option R × T) → ℕ → Option T → M T R
  unfolding unlock settle
  act action address none = unlock address none >> raise stale
  act action address (some value) = settle address (action value)

  -- `with` from the moment at which the handle is resolved
  unfoldable pub with_cell : (T → Option R × T) → ℕ → M T R
  unfolding try_lock act
  with_cell action address = try_lock address >>= act action address

  unfoldable pub with_value : ℕ → (T → Option R × T) → M T R
  unfolding resolve with_cell
  with_value handle action = resolve handle >>= with_cell action

module _ {T : Type 0} where
  -- The slot gives up the value and takes the next generation, if it still holds that cell.
  unfoldable pub retire : ℕ → ℕ → ℕ → M T (Unit {0})
  unfolding lock_slots slot_at
  retire index generation address = do
    lock_slots
    slot ← slot_at index
    guard (slot.generation == generation) stale
    guard (opt_eq slot.value (some address)) stale
    modify (λ t. record t {
      slots =
          set t.slots index (record { generation = next_generation slot.generation; value = none });
    })

  -- `content` stays in the cell when the slot is not given up.
  unfoldable pub conclude :
      ℕ
      → (content : Option T) → Result HandleError (Unit {0}) × HandleTable T
      → Result HandleError (Unit {0}) × HandleTable T
  unfolding unlock
  conclude address content (ok u, t) = (unlock address none >> pure u) t
  conclude address content (err e, t) = (unlock address content >> raise e) t
  conclude address content (panic, t) = (unlock address content >> lift panic) t

  unfoldable pub give_up : ℕ → ℕ → ℕ → (content : Option T) → M T (Unit {0})
  unfolding retire conclude
  give_up index generation address content t =
      conclude address content (retire index generation address t)

  unfoldable pub close_cell : ℕ → ℕ → ℕ → Option T → M T (Unit {0})
  unfolding give_up unlock
  close_cell index generation address none = unlock address none >> raise stale
  close_cell index generation address (some value) = give_up index generation address (some value)

  unfoldable pub close : ℕ → M T (Unit {0})
  unfolding resolve try_lock close_cell
  close handle = do
    (index, generation) ← lift (decode_handle handle)
    address ← resolve handle
    content ← try_lock address
    close_cell index generation address content

-- What a consumer made of the value: a result, or an error with the value back.
pub data Consumed (T R E : Type 0) : Type 0 where
  done : R → Consumed T R E
  restored : E → T → Consumed T R E

module _ {T R E : Type 0} where
  unfoldable pub answer : ℕ → ℕ → ℕ → Option (Consumed T R E) → M T (R ⊎ E)
  unfolding give_up unlock break
  answer index generation address none = break address none >> lift panic
  answer index generation address (some (done r)) =
      give_up index generation address none >> pure (inl r)
  answer index generation address (some (restored e v)) = unlock address (some v) >> pure (inr e)

  -- The value is out of the cell while the action runs, and lost when the action panics.
  unfoldable pub consume_cell : (T → Option (Consumed T R E)) → ℕ → ℕ → ℕ → Option T → M T (R ⊎ E)
  unfolding answer unlock
  consume_cell action index generation address none = unlock address none >> raise stale
  consume_cell action index generation address (some value) =
      answer index generation address (action value)

  unfoldable pub consume_if : ℕ → (T → Option (Consumed T R E)) → M T (R ⊎ E)
  unfolding resolve try_lock consume_cell
  consume_if handle action = do
    (index, generation) ← lift (decode_handle handle)
    address ← resolve handle
    content ← try_lock address
    consume_cell action index generation address content

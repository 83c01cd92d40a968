-- ===== src/Redstone.antt =====
-- src/redstone.rs: the redstone device, its six input levels and the tasks that wait for them. Words
-- are `u32`; `x & mask` with a mask of low bits is a remainder and `x >> n` a quotient.
pub mod Sorting
pub mod Submit
pub mod Waits
pub mod Runs
mod Tests
use compukter_vm.Prelude.{
  ℕ, zero, suc, ◌+◌, ◌*◌, ◌/◌, ◌%◌, ◌^◌, Bool, true, false, ◌&&◌, ◌||◌, List, [], ◌∷◌, ◌++◌, length,
  any, Result, ok, err, Method, ◌>>=◌, ◌>>◌, pure, lift, gets, modify, guard, ltb, leb, ◌==◌,
  if◌then◌else◌, not, and_then,
}

abbrev pub side_count : ℕ
side_count = 6

-- `ALL_SIDES_MASK + 1`, `REGISTER_MASK + 1`, `INPUT_LEVEL_MASK + 1` and `SIGNAL_MASK + 1`
abbrev pub all_sides_range : ℕ
all_sides_range = 64

abbrev pub register_range : ℕ
register_range = 1073741824

abbrev pub input_level_range : ℕ
input_level_range = 16777216

abbrev pub signal_range : ℕ
signal_range = 16

pub data RedstoneError : Type 0 where
  reserved_bits invalid_side invalid_signal duplicate_waiter waiter_limit : RedstoneError

pub data InputPredicate : Type 0 where
  changed : InputPredicate
  exact at_least at_most : ℕ → InputPredicate

-- A `TaskId` and a `RequestId` are numbers.
pub record RedstoneWaiter : Type 0 where
  pub task : ℕ
  pub request : ℕ
  pub side : ℕ
  pub predicate : InputPredicate

pub record RedstoneWakeup : Type 0 where
  pub task : ℕ
  pub request : ℕ
  pub level : ℕ

pub data WaitRegistration : Type 0 where
  ready : ℕ → WaitRegistration
  pending : WaitRegistration

pub record RedstoneDevice : Type 0 where
  pub input_levels : ℕ
  pub confirmed_output : ℕ
  pub waiters : List RedstoneWaiter
  pub maximum_waiters : ℕ

abbrev pub M : Type 0 → Type 0
M = Method RedstoneDevice RedstoneError

unfoldable pub new : ℕ → RedstoneDevice
new maximum_waiters = record {
  input_levels = 0;
  confirmed_output = 0;
  waiters = [];
  maximum_waiters = maximum_waiters;
}

unfoldable pub validate_register : ℕ → Result RedstoneError (Unit {0})
validate_register value = if value / register_range == 0 then ok tt else err reserved_bits

unfoldable pub validate_side : ℕ → Result RedstoneError (Unit {0})
validate_side side = if ltb side side_count then ok tt else err invalid_side

unfoldable pub validate_signal : ℕ → Result RedstoneError (Unit {0})
validate_signal signal = if ltb signal signal_range then ok tt else err invalid_signal

unfoldable pub predicate_matches : InputPredicate → ℕ → Bool
predicate_matches changed level = true
predicate_matches (exact signal) level = level == signal
predicate_matches (at_least signal) level = leb signal level
predicate_matches (at_most signal) level = leb level signal

-- `((levels >> (side * 4)) & SIGNAL_MASK) as u8`
unfoldable pub level_of : ℕ → ℕ → ℕ
level_of levels side = (levels / 2 ^ (side * 4)) % signal_range

unfoldable pub input : ℕ → ℕ → Result RedstoneError ℕ
input levels side = and_then (validate_side side) λ _. ok (level_of levels side)

abbrev pub is_waiter : ℕ → ℕ → RedstoneWaiter → Bool
is_waiter task request waiter = (waiter.task == task) && (waiter.request == request)

unfoldable pub contains_waiter : ℕ → ℕ → RedstoneDevice → Bool
contains_waiter task request d = any (is_waiter task request) d.waiters

unfoldable pub confirm_output : ℕ → M (Unit {0})
confirm_output packed = do
  lift (validate_register packed)
  modify (λ d. record d { confirmed_output = packed })

-- `changed & (1 << side) != 0`
unfoldable pub has_changed : ℕ → ℕ → Bool
has_changed mask side = (mask / 2 ^ side) % 2 == 1

abbrev pub wakeup : RedstoneWaiter → ℕ → RedstoneWakeup
wakeup waiter level = record { task = waiter.task; request = waiter.request; level = level }

-- The loop of `submit_input` over the waiters, with what it has pushed to `ready` and `pending`.
unfoldable pub wake_loop :
    (mask levels : ℕ)
    → List RedstoneWakeup
    → List RedstoneWaiter
    → List RedstoneWaiter
    → Result RedstoneError (List RedstoneWakeup × List RedstoneWaiter)
wake_loop mask levels woken waiting [] = ok (woken, waiting)
wake_loop mask levels woken waiting (w ∷ ws) =
    if not (has_changed mask w.side)
    then wake_loop mask levels woken (waiting ++ w ∷ []) ws
    else and_then (input levels w.side) λ level.
      if predicate_matches w.predicate level
      then wake_loop mask levels (woken ++ wakeup w level ∷ []) waiting ws
      else wake_loop mask levels woken (waiting ++ w ∷ []) ws

-- The order of `(task, request)`
unfoldable pub key_le : RedstoneWakeup → RedstoneWakeup → Bool
key_le a b = ltb a.task b.task || ((a.task == b.task) && leb a.request b.request)

-- `sort_by_key`, a stable sort, here by insertion
unfoldable pub insert_by_key : RedstoneWakeup → List RedstoneWakeup → List RedstoneWakeup
insert_by_key a [] = a ∷ []
insert_by_key a (b ∷ bs) = if key_le a b then a ∷ b ∷ bs else b ∷ insert_by_key a bs

unfoldable pub sort_by_key : List RedstoneWakeup → List RedstoneWakeup
sort_by_key [] = []
sort_by_key (a ∷ rest) = insert_by_key a (sort_by_key rest)

abbrev pub is_empty : List RedstoneWaiter → Bool
is_empty [] = true
is_empty (w ∷ ws) = false

-- After the early return: the waiters are taken out, then those that stay are put back.
unfoldable pub wake : ℕ → M (List RedstoneWakeup)
wake mask = do
  taken ← gets (λ d. d.waiters)
  modify (λ d. record d { waiters = [] })
  levels ← gets (λ d. d.input_levels)
  (woken, waiting) ← lift (wake_loop mask levels [] [] taken)
  modify (λ d. record d { waiters = waiting })
  pure (sort_by_key woken)

unfoldable pub submit_input : ℕ → M (List RedstoneWakeup)
submit_input packet = do
  lift (validate_register packet)
  let mask = packet % all_sides_range
  modify (λ d. record d { input_levels = (packet / 64) % input_level_range })
  waiters ← gets (λ d. d.waiters)
  if (mask == 0) || is_empty waiters then pure [] else wake mask

-- The check of the signal of a predicate in `register`
unfoldable pub validate_predicate : InputPredicate → Result RedstoneError (Unit {0})
validate_predicate changed = ok tt
validate_predicate (exact signal) = validate_signal signal
validate_predicate (at_least signal) = validate_signal signal
validate_predicate (at_most signal) = validate_signal signal

-- The end of `register`: a waiter is added.
unfoldable pub add_waiter : RedstoneWaiter → M WaitRegistration
add_waiter waiter = do
  waiters ← gets (λ d. d.waiters)
  maximum ← gets (λ d. d.maximum_waiters)
  guard (ltb (length waiters) maximum) waiter_limit
  modify (λ d. record d { waiters = d.waiters ++ waiter ∷ [] })
  pure pending

-- `register` with the level that it reads.
unfoldable pub register_at :
    (task request side : ℕ) → InputPredicate → Bool → ℕ → M WaitRegistration
register_at task request side predicate level_triggered current =
    if level_triggered && predicate_matches predicate current
    then pure (ready current)
    else add_waiter (record { task = task; request = request; side = side; predicate = predicate })

unfoldable pub register : (task request side : ℕ) → InputPredicate → Bool → M WaitRegistration
register task request side predicate level_triggered = do
  lift (validate_side side)
  lift (validate_predicate predicate)
  known ← gets (contains_waiter task request)
  guard (not known) duplicate_waiter
  levels ← gets (λ d. d.input_levels)
  current ← lift (input levels side)
  register_at task request side predicate level_triggered current

unfoldable pub register_changed : (task request side : ℕ) → M WaitRegistration
register_changed task request side = register task request side changed false

unfoldable pub register_exact : (task request side signal : ℕ) → M WaitRegistration
register_exact task request side signal = register task request side (exact signal) true

unfoldable pub register_at_least : (task request side signal : ℕ) → M WaitRegistration
register_at_least task request side signal = register task request side (at_least signal) true

unfoldable pub register_at_most : (task request side signal : ℕ) → M WaitRegistration
register_at_most task request side signal = register task request side (at_most signal) true

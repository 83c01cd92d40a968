-- ===== src/Terminal/Input.antt =====
-- src/terminal/input.rs: key codes, modifiers and the bounded queue of input events. A `str` is the
-- list of its characters.
pub mod Keys
pub mod Queue
mod Tests
use compukter_vm.Prelude.{
  ℕ, ◌/◌, Option, none, some, Bool, true, false, ◌||◌, List, [], ◌∷◌, ◌++◌, length, Result, ok, err,
  Method, ◌>>=◌, ◌>>◌, pure, lift, gets, modify, guard, ltb, leb, ◌==◌, if◌then◌else◌, not,
}

pub data TerminalInputError : Type 0 where
  invalid_limits invalid_key invalid_modifiers queue_full text_too_large : TerminalInputError

pub record TerminalInputLimits : Type 0 where
  pub maximum_events : ℕ
  pub maximum_text_code_points : ℕ

-- `TerminalInputLimits::new`
unfoldable pub new_limits : ℕ → ℕ → Result TerminalInputError TerminalInputLimits
new_limits maximum_events maximum_text_code_points =
    if (maximum_events == 0) || (maximum_text_code_points == 0)
    then err invalid_limits
    else ok (record {
      maximum_events = maximum_events;
      maximum_text_code_points = maximum_text_code_points;
    })

abbrev pub default_limits : TerminalInputLimits
default_limits = record { maximum_events = 256; maximum_text_code_points = 4096 }

pub data TerminalKey : Type 0 where
  escape backspace tab enter c s u t : TerminalKey
  x insert delete home end page_up page_down up : TerminalKey
  left down right f1 f2 f3 f4 f5 : TerminalKey
  f6 f7 f8 f9 f10 f11 f12 : TerminalKey

-- `TerminalKey::code`
unfoldable pub code : TerminalKey → ℕ
code escape = 1
code backspace = 8
code tab = 9
code enter = 13
code c = 67
code s = 83
code u = 85
code t = 84
code x = 88
code insert = 256
code delete = 257
code home = 258
code end = 259
code page_up = 260
code page_down = 261
code up = 262
code left = 263
code down = 264
code right = 265
code f1 = 272
code f2 = 273
code f3 = 274
code f4 = 275
code f5 = 276
code f6 = 277
code f7 = 278
code f8 = 279
code f9 = 280
code f10 = 281
code f11 = 282
code f12 = 283

-- The arms of the `match` in `try_from`
abbrev pub arms : List (ℕ × TerminalKey)
arms =
    (1, escape)
    ∷ (8, backspace)
    ∷ (9, tab)
    ∷ (13, enter)
    ∷ (67, c)
    ∷ (83, s)
    ∷ (85, u)
    ∷ (84, t)
    ∷ (88, x)
    ∷ (256, insert)
    ∷ (257, delete)
    ∷ (258, home)
    ∷ (259, end)
    ∷ (260, page_up)
    ∷ (261, page_down)
    ∷ (262, up)
    ∷ (263, left)
    ∷ (264, down)
    ∷ (265, right)
    ∷ (272, f1)
    ∷ (273, f2)
    ∷ (274, f3)
    ∷ (275, f4)
    ∷ (276, f5)
    ∷ (277, f6)
    ∷ (278, f7)
    ∷ (279, f8)
    ∷ (280, f9)
    ∷ (281, f10)
    ∷ (282, f11)
    ∷ (283, f12)
    ∷ []

abbrev pub match_arm : ℕ → List (ℕ × TerminalKey) → Result TerminalInputError TerminalKey
match_arm value [] = err invalid_key
match_arm value ((number, key) ∷ rest) = if value == number then ok key else match_arm value rest

-- `TerminalKey::try_from`
unfoldable pub try_from : ℕ → Result TerminalInputError TerminalKey
try_from value = match_arm value arms

pub data TerminalKeyAction : Type 0 where
  press repeat : TerminalKeyAction

-- `TerminalModifiers(u8)`
pub data TerminalModifiers : Type 0 where
  modifiers : ℕ → TerminalModifiers

-- `TerminalModifiers::new`: the four lowest bits are in use.
unfoldable pub new_modifiers : ℕ → Result TerminalInputError TerminalModifiers
new_modifiers bits = if bits / 16 == 0 then ok (modifiers bits) else err invalid_modifiers

unfoldable pub modifier_bits : TerminalModifiers → ℕ
modifier_bits (modifiers bits) = bits

pub record TerminalKeyEvent : Type 0 where
  pub key : TerminalKey
  pub action : TerminalKeyAction
  pub modifiers : TerminalModifiers

pub data TerminalInputEvent : Type 0 where
  key_event : TerminalKeyEvent → TerminalInputEvent
  text_event : List ℕ → TerminalInputEvent

pub record TerminalInputQueue : Type 0 where
  pub limits : TerminalInputLimits
  pub events : List TerminalInputEvent

abbrev pub M : Type 0 → Type 0
M = Method TerminalInputQueue TerminalInputError

unfoldable pub new : TerminalInputLimits → TerminalInputQueue
new limits = record { limits = limits; events = [] }

unfoldable pub ensure_capacity : M (Unit {0})
ensure_capacity = do
  maximum ← gets (λ q. q.limits.maximum_events)
  events ← gets (λ q. q.events)
  guard (not (leb maximum (length events))) queue_full

unfoldable pub push_key : TerminalKeyEvent → M (Unit {0})
push_key event = do
  ensure_capacity
  modify (λ q. record q { events = q.events ++ key_event event ∷ [] })

unfoldable pub push_text : List ℕ → M (Unit {0})
push_text text = do
  maximum ← gets (λ q. q.limits.maximum_text_code_points)
  guard (not (ltb maximum (length text))) text_too_large
  ensure_capacity
  modify (λ q. record q { events = q.events ++ text_event text ∷ [] })

unfoldable pub poll : TerminalInputQueue → Option TerminalInputEvent × TerminalInputQueue
poll q = elim q.events [ [] ↦ (none, q) | event ∷ rest ↦ (some event, record q { events = rest }) ]

unfoldable pub is_empty : TerminalInputQueue → Bool
is_empty q = elim q.events [ [] ↦ true | event ∷ rest ↦ false ]

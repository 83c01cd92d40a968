-- ===== src/Stdio.antt =====
-- src/stdio.rs: the standard streams of a computer, their line editor and who owns the input. The
-- terminal that they echo to is a parameter, with the two operations of `TerminalDevice`
-- (src/terminal/state.rs) that the streams call. The two endpoints of the output have no state.
pub mod Editing
pub mod Lines
pub mod Owners
mod Tests
use compukter_vm.Prelude.{
  ℕ, ◌+◌, Option, none, some, Bool, true, false, ◌&&◌, ◌||◌, List, [], ◌∷◌, ◌++◌, length, Result,
  ok, err, panic, Method, ◌>>=◌, ◌>>◌, pure, raise, lift, gets, modify, guard, ok_or, ltb, leb,
  ◌==◌, if◌then◌else◌, not,
}
use compukter_vm.Prelude.Word.{checked_add}
use compukter_vm.Terminal.Input.{TerminalKey, backspace, enter}

pub record InputOwner : Type 0 where
  pub frame : ℕ
  pub task : ℕ

pub data InputOwnershipError : Type 0 where
  raw_busy canonical_busy wrong_owner : InputOwnershipError

pub data CanonicalLineSubmissionError : Type 0 where
  no_pending_read input_busy partial_input unsupported_code_unit line_too_long terminal resume :
      CanonicalLineSubmissionError

pub data StandardStreamError : Type 0 where
  invalid_limits line_too_long line_ready output_too_large no_canonical_read terminal :
      StandardStreamError

pub data InputMode : Type 0 where
  raw canonical : InputMode

pub record CanonicalInput : Type 0 where
  pub editing : List ℕ
  pub ready : Option (List ℕ)

pub record StandardStreams : Type 0 where
  pub input : CanonicalInput
  pub owner : Option (InputMode × InputOwner)
  pub maximum_line_code_units : ℕ
  pub maximum_output_code_units : ℕ

-- `CanonicalInput::default`, which `clear` goes back to
abbrev pub no_input : CanonicalInput
no_input = record { editing = []; ready = none }

unfoldable pub new : ℕ → ℕ → Result StandardStreamError StandardStreams
new maximum_line_code_units maximum_output_code_units =
    if (maximum_line_code_units == 0) || (maximum_output_code_units == 0)
    then err invalid_limits
    else ok (record {
      input = no_input;
      owner = none;
      maximum_line_code_units = maximum_line_code_units;
      maximum_output_code_units = maximum_output_code_units;
    })

abbrev pub mode_eq : InputMode → InputMode → Bool
mode_eq raw raw = true
mode_eq canonical canonical = true
mode_eq _ _ = false

abbrev pub owner_eq : InputOwner → InputOwner → Bool
owner_eq a b = (a.frame == b.frame) && (a.task == b.task)

-- `owner == Some((mode, owner))`
unfoldable pub is_owned : InputMode → InputOwner → Option (InputMode × InputOwner) → Bool
is_owned mode owner none = false
is_owned mode owner (some (m, o)) = mode_eq m mode && owner_eq o owner

abbrev pub is_some {ℓ} : {A : Type ℓ} → Option A → Bool
is_some none = false
is_some (some a) = true

abbrev pub is_nil : List ℕ → Bool
is_nil [] = true
is_nil (u ∷ us) = false

-- `is_canonical_text_unit`
unfoldable pub is_canonical_text_unit : ℕ → Bool
is_canonical_text_unit unit = leb 32 unit && not (unit == 127)

abbrev pub filter : (ℕ → Bool) → List ℕ → List ℕ
filter p [] = []
filter p (u ∷ us) = if p u then u ∷ filter p us else filter p us

abbrev pub all : (ℕ → Bool) → List ℕ → Bool
all p [] = true
all p (u ∷ us) = p u && all p us

abbrev pub O : Type 0 → Type 0
O = Method StandardStreams InputOwnershipError

abbrev pub busy : InputMode → InputOwnershipError
busy raw = raw_busy
busy canonical = canonical_busy

unfoldable pub acquire_free :
    InputMode → InputOwner → Option (InputMode × InputOwner) → O (Unit {0})
acquire_free mode owner (some (current, _)) = raise (busy current)
acquire_free mode owner none = modify (λ s. record s { owner = some (mode, owner) })

unfoldable pub acquire : InputMode → InputOwner → O (Unit {0})
acquire mode owner s =
    if is_owned mode owner s.owner then (ok tt, s) else acquire_free mode owner s.owner s

unfoldable pub begin_read : InputOwner → O (Unit {0})
begin_read owner = acquire canonical owner

unfoldable pub begin_raw_wait : InputOwner → O (Unit {0})
begin_raw_wait owner = acquire raw owner

unfoldable pub finish_raw : InputOwner → O (Unit {0})
finish_raw owner = do
  current ← gets (λ s. s.owner)
  guard (is_owned raw owner current) wrong_owner
  modify (λ s. record s { owner = none })

unfoldable pub ensure_raw_owner :
    InputOwner → StandardStreams → Result InputOwnershipError (Unit {0})
ensure_raw_owner owner s = if is_owned raw owner s.owner then ok tt else err wrong_owner

-- `self.owner.is_some_and(...)`
abbrev pub owner_test : (InputOwner → Bool) → Option (InputMode × InputOwner) → Bool
owner_test p none = false
owner_test p (some (m, o)) = p o

abbrev pub released : StandardStreams → StandardStreams
released s = record s { owner = none; input = no_input }

unfoldable pub cancel : InputOwner → StandardStreams → StandardStreams
cancel owner s = if owner_test (λ o. owner_eq o owner) s.owner then released s else s

unfoldable pub cancel_frame : ℕ → StandardStreams → StandardStreams
cancel_frame frame s = if owner_test (λ o. o.frame == frame) s.owner then released s else s

unfoldable pub take_ready : Option (List ℕ) → StandardStreams → Option (List ℕ) × StandardStreams
take_ready none s = (none, s)
take_ready (some line) s =
    (some line, record s { input = record s.input { ready = none }; owner = none })

unfoldable pub take_line : InputOwner → StandardStreams → Option (List ℕ) × StandardStreams
take_line owner s =
    if is_owned canonical owner s.owner then take_ready s.input.ready s else (none, s)

unfoldable pub is_canonical_owned : Option (InputMode × InputOwner) → Bool
is_canonical_owned (some (canonical, _)) = true
is_canonical_owned _ = false

unfoldable pub require_canonical : StandardStreams → Result StandardStreamError (Unit {0})
require_canonical s = if is_canonical_owned s.owner then ok tt else err no_canonical_read

-- Without the last unit, and without the first half of a surrogate pair before it: the list in reverse.
unfoldable pub pop_units : List ℕ → List ℕ
pop_units [] = []
pop_units (last ∷ []) = []
pop_units (last ∷ previous ∷ rest) =
    if (leb 56320 last && leb last 57343) && (leb 55296 previous && leb previous 56319)
    then rest
    else previous ∷ rest

abbrev pub reverse_onto : List ℕ → List ℕ → List ℕ
reverse_onto [] acc = acc
reverse_onto (u ∷ us) acc = reverse_onto us (u ∷ acc)

-- The pops of `Backspace` at the end of the line.
unfoldable pub erase_last : List ℕ → List ℕ
erase_last editing = reverse_onto (pop_units (reverse_onto editing [])) []

-- `checked_add(...).is_none_or(|length| length > maximum)`
abbrev pub too_long : Option ℕ → ℕ → Bool
too_long none maximum = true
too_long (some length) maximum = ltb maximum length

abbrev pub with_editing : List ℕ → StandardStreams → StandardStreams
with_editing units s = record s { input = record s.input { editing = units } }

abbrev pub finished : StandardStreams → StandardStreams
finished s = record s { input = record { editing = []; ready = some s.input.editing } }

-- The operations of `TerminalDevice`
pub record TerminalDevice (T : Type 0) : Type 0 where
  pub write_utf16 : List ℕ → T → Bool × T
  pub erase_previous : T → T

module _ {T : Type 0} (device : TerminalDevice T) where
  -- Streams and their terminal, which both change.
  abbrev pub Console : Type 0
  Console = StandardStreams × T

  abbrev pub C : Type 0 → Type 0 → Type 0
  C E A = Method Console E A

  -- `terminal.write_utf16(units)`, with the error that its own is mapped to
  unfoldable pub echo : {E : Type 0} → E → List ℕ → C E (Unit {0})
  echo e units (s, t) =
      let (fine, t') = device.write_utf16 units t in (if fine then ok tt else err e, (s, t'))

  abbrev pub update : {E : Type 0} → (StandardStreams → StandardStreams) → C E (Unit {0})
  update f (s, t) = (ok tt, (f s, t))

  unfoldable pub submit_complete_line :
      InputOwner → List ℕ → C CanonicalLineSubmissionError (List ℕ)
  submit_complete_line owner units = do
    s ← gets (λ c. c.0)
    guard (is_owned canonical owner s.owner) input_busy
    guard (is_nil s.input.editing && not (is_some s.input.ready)) partial_input
    guard (all is_canonical_text_unit units) unsupported_code_unit
    guard (leb (length units) s.maximum_line_code_units) CanonicalLineSubmissionError.line_too_long
    echo CanonicalLineSubmissionError.terminal units
    echo CanonicalLineSubmissionError.terminal (10 ∷ [])
    update (λ s. record s { owner = none })
    pure units

  unfoldable pub accept_text : List ℕ → C StandardStreamError (Unit {0})
  accept_text text = do
    s ← gets (λ c. c.0)
    lift (require_canonical s)
    guard (not (is_some s.input.ready)) line_ready
    let units = if all is_canonical_text_unit text then text else filter is_canonical_text_unit text
    guard
        (not (
          too_long (checked_add (length s.input.editing) (length units)) s.maximum_line_code_units))
        StandardStreamError.line_too_long
    echo StandardStreamError.terminal units
    update (λ s. with_editing (s.input.editing ++ units) s)

  unfoldable pub accept_backspace : List ℕ → C StandardStreamError (Unit {0})
  accept_backspace [] c = (ok tt, c)
  accept_backspace (u ∷ us) (s, t) =
      (ok tt, (with_editing (erase_last (u ∷ us)) s, device.erase_previous t))

  unfoldable pub press : TerminalKey → List ℕ → C StandardStreamError (Unit {0})
  press backspace editing = accept_backspace editing
  press enter editing = echo StandardStreamError.terminal (10 ∷ []) >> update finished
  press _ editing = pure tt

  unfoldable pub accept_key : TerminalKey → C StandardStreamError (Unit {0})
  accept_key key = do
    s ← gets (λ c. c.0)
    lift (require_canonical s)
    guard (not (is_some s.input.ready)) line_ready
    press key s.input.editing

  unfoldable pub write_endpoint : ℕ → List ℕ → C StandardStreamError (Unit {0})
  write_endpoint maximum_output_code_units units = do
    guard (leb (length units) maximum_output_code_units) output_too_large
    echo StandardStreamError.terminal units

  unfoldable pub write_stdout : List ℕ → C StandardStreamError (Unit {0})
  write_stdout units = do s ← gets (λ c. c.0); write_endpoint s.maximum_output_code_units units

  unfoldable pub write_stderr : List ℕ → C StandardStreamError (Unit {0})
  write_stderr units = do s ← gets (λ c. c.0); write_endpoint s.maximum_output_code_units units

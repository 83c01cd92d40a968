-- ===== src/Terminal/Replication.antt =====
-- src/terminal/replication.rs: the changes of a terminal, committed in revisions and kept in a journal
-- from which a viewer at an older revision is brought up to date.
pub mod Gathering
pub mod Journal
pub mod Recording
mod Tests
use compukter_vm.Prelude.{
  ℕ, suc, ◌+◌, Option, none, some, Bool, true, false, List, [], ◌∷◌, ◌++◌, length, Result, ok,
  panic, Method, ltb, leb, ◌==◌, if◌then◌else◌,
}
use mathlib.Core.Option
use compukter_vm.Prelude.Word.{checked_add}
use compukter_vm.Terminal.Cells.{TerminalCell, TerminalPosition}

abbrev pub maximum_pending_changes : ℕ
maximum_pending_changes = 256

abbrev pub maximum_accumulated_changes : ℕ
maximum_accumulated_changes = 4096

abbrev pub maximum_accumulated_cells : ℕ
maximum_accumulated_cells = 8192

pub data TerminalChange : Type 0 where
  patch : (start : ℕ) (cells : List TerminalCell) → TerminalChange
  fill : (x y width height : ℕ) (cell : TerminalCell) → TerminalChange
  scroll : (rows : ℕ) (fill : TerminalCell) → TerminalChange
  cursor : (position : TerminalPosition) (visible : Bool) → TerminalChange
  reset : TerminalChange
  history_append : (first_row : ℕ) (cells : List TerminalCell) → TerminalChange
  history_replace : (first_row : ℕ) (cells : List TerminalCell) → TerminalChange

pub record TerminalDelta : Type 0 where
  pub base_revision : ℕ
  pub target_revision : ℕ
  pub changes : List TerminalChange

pub data TerminalCommit : Type 0 where
  unchanged : (revision : ℕ) → TerminalCommit
  committed : TerminalDelta → TerminalCommit

-- `TerminalUpdate`, less the snapshot: `delta_since` never makes one.
pub data TerminalUpdate : Type 0 where
  unchanged : (revision : ℕ) → TerminalUpdate
  delta : TerminalDelta → TerminalUpdate

pub record ReplicationState : Type 0 where
  pub revision : ℕ
  pub journal_capacity : ℕ
  pub pending : List TerminalChange
  pub journal : List TerminalDelta
  pub requires_full_replacement : Bool

unfoldable pub new : ℕ → ReplicationState
new journal_capacity = record {
  revision = 0;
  journal_capacity = journal_capacity;
  pending = [];
  journal = [];
  requires_full_replacement = false;
}

-- Two patches, the second of which begins where the first one ends.
unfoldable pub join : TerminalChange → TerminalChange → Option TerminalChange
join (patch previous_start previous_cells) (patch start cells) =
    if previous_start + length previous_cells == start
    then some (patch previous_start (previous_cells ++ cells))
    else none
join _ _ = none

-- `self.pending.last_mut()` takes the change in, if it can.
unfoldable pub join_last : List TerminalChange → TerminalChange → Option (List TerminalChange)
unfolding join
join_last [] change = none
join_last (last ∷ []) change = Option.map (λ joined. joined ∷ []) (join last change)
join_last (first ∷ next ∷ rest) change =
    Option.map (λ cs. first ∷ cs) (join_last (next ∷ rest) change)

-- Too many changes are dropped, and all cells are sent instead.
unfoldable pub push : TerminalChange → ReplicationState → ReplicationState
push change s =
    if ltb maximum_pending_changes (length s.pending + 1)
    then record s { pending = []; requires_full_replacement = true }
    else record s { pending = s.pending ++ change ∷ [] }

-- `record`, which is a keyword here
unfoldable pub record_change : TerminalChange → ReplicationState → ReplicationState
unfolding join_last push
record_change change s =
    if s.requires_full_replacement then s else elim (join_last s.pending change) [
      | none ↦ push change s
      | some joined ↦ record s { pending = joined }
    ]

abbrev pub is_history : TerminalChange → Bool
is_history (history_append first_row cells) = true
is_history (history_replace first_row cells) = true
is_history _ = false

-- `retain(is_history)`
unfoldable pub retain_history : List TerminalChange → List TerminalChange
retain_history [] = []
retain_history (c ∷ cs) = if is_history c then c ∷ retain_history cs else retain_history cs

unfoldable pub record_reset : ReplicationState → ReplicationState
unfolding record_change retain_history
record_reset s = record_change reset (record s { pending = retain_history s.pending })

abbrev pub encoded_cell_count : TerminalChange → ℕ
encoded_cell_count (patch start cells) = length cells
encoded_cell_count (history_append first_row cells) = length cells
encoded_cell_count (history_replace first_row cells) = length cells
encoded_cell_count (fill x y width height cell) = 1
encoded_cell_count (scroll rows cell) = 1
encoded_cell_count _ = 0

-- `iter().map(encoded_cell_count).sum()`
unfoldable pub encoded_cells : List TerminalChange → ℕ
encoded_cells [] = 0
encoded_cells (c ∷ cs) = encoded_cell_count c + encoded_cells cs

-- `while self.journal.len() > self.journal_capacity { self.journal.pop_front(); }`
unfoldable pub trim : ℕ → List TerminalDelta → List TerminalDelta
trim capacity [] = []
trim capacity (d ∷ ds) = if ltb capacity (length (d ∷ ds)) then trim capacity ds else d ∷ ds

-- The whole terminal as the commit is given it.
pub record Full : Type 0 where
  pub full_cells : Option (List TerminalCell)
  pub position : TerminalPosition
  pub visible : Bool
  pub history_start : ℕ
  pub history_cells : List TerminalCell

-- What a commit sends: all cells where changes were dropped, and else the pending changes.
unfoldable pub outgoing : Full → ReplicationState → Option (List TerminalChange)
outgoing full s =
    if s.requires_full_replacement
    then elim (full.full_cells) [
      | none ↦ none
      | some cells ↦ some (
          reset
          ∷ patch 0 cells
          ∷ history_replace full.history_start full.history_cells
          ∷ cursor full.position full.visible
          ∷ [])
    ]
    else some s.pending

unfoldable pub seal :
    List TerminalChange → ReplicationState → Result (Unit {0}) TerminalCommit × ReplicationState
unfolding encoded_cells trim
seal changes s = elim (checked_add s.revision 1) [
  | none ↦ (panic, record s { pending = changes; requires_full_replacement = false })
  | some revision ↦
      let d : TerminalDelta = record {
        base_revision = s.revision;
        target_revision = revision;
        changes = changes;
      } in
      (
        ok (committed d),
        record s {
          revision = revision;
          pending = [];
          requires_full_replacement = false;
          journal = trim s.journal_capacity (
              if ltb maximum_accumulated_cells (encoded_cells changes)
              then []
              else s.journal ++ d ∷ []);
        },
      )
]

abbrev pub is_nil {ℓ} : {A : Type ℓ} → List A → Bool
is_nil [] = true
is_nil (x ∷ xs) = false

unfoldable pub commit :
    Full → ReplicationState → Result (Unit {0}) TerminalCommit × ReplicationState
unfolding outgoing seal
commit full s =
    if (if s.requires_full_replacement then false else is_nil s.pending)
    then (ok (TerminalCommit.unchanged s.revision), s)
    else elim (outgoing full s) [ none ↦ (panic, s) | some changes ↦ seal changes s ]

-- The loop over the journal, with the revision that is reached, and the changes and the cells so far.
unfoldable pub gather :
    (base_revision revision expected : ℕ)
    → List TerminalChange
    → ℕ
    → List TerminalDelta
    → Option TerminalUpdate
unfolding encoded_cells
gather base_revision revision expected changes cells [] = none
gather base_revision revision expected changes cells (d ∷ ds) =
    let skipped = gather base_revision revision expected changes cells ds in
    let further =
      gather base_revision revision d.target_revision (changes ++ d.changes)
        (cells + encoded_cells d.changes) ds in
    if leb d.target_revision expected
    then skipped
    else if d.base_revision == expected
    then (if ltb maximum_accumulated_changes (length changes + length d.changes)
        then none
        else if ltb maximum_accumulated_cells (cells + encoded_cells d.changes)
        then none
        else if d.target_revision == revision
        then some (
            delta (record {
              base_revision = base_revision;
              target_revision = revision;
              changes = changes ++ d.changes;
            }))
        else further)
    else none

unfoldable pub delta_since : ℕ → ReplicationState → Option TerminalUpdate
unfolding gather
delta_since base_revision s =
    if base_revision == s.revision
    then some (TerminalUpdate.unchanged s.revision)
    else if ltb s.revision base_revision
    then none
    else gather base_revision s.revision base_revision [] 0 s.journal

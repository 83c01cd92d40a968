-- ===== src/Terminal/Replication/Tests.antt =====
-- Replication on concrete calls, and a viewer that satisfies the laws: a screen as a function.
use compukter_vm.Prelude.{
  ℕ, suc, ◌+◌, ◌≡◌, ◌∙◌, refl, ap, none, some, true, false, List, [], ◌∷◌, ◌++◌, length, ok, arith,
  ◌==◌, if◌then◌else◌,
}
use compukter_vm.Terminal.Cells.{TerminalCell}
use compukter_vm.Terminal.Replication.{
  record_change, record_reset, TerminalChange, TerminalDelta, ReplicationState, Full, patch, fill,
  scroll, cursor, reset, history_append, history_replace, committed, delta, new, is_history,
  delta_since, commit,
}
use compukter_vm.Terminal.Replication.Gathering.{since}
use compukter_vm.Terminal.Replication.Journal.{
  Call, records, resets, commits, call, calls, calls-since,
}
use compukter_vm.Terminal.Replication.Recording.{
  Viewer, Report, change, clear, reported, replay, watch, commit-replay,
}

abbrev cell : ℕ → TerminalCell
cell c = record { code_point = c; foreground = 15; background = 0 }

abbrev write : ℕ → List TerminalCell → (ℕ → TerminalCell) → ℕ → TerminalCell
write start [] v = v
write start (c ∷ cs) v = write (start + 1) cs (λ i. if i == start then c else v i)

abbrev draw : TerminalChange → (ℕ → TerminalCell) → ℕ → TerminalCell
draw (patch start cells) v = write start cells v
draw reset v = λ _. cell 32
draw _ v = v

write-append :
    (start : ℕ) (xs ys : List TerminalCell) (v : ℕ → TerminalCell)
    → write start (xs ++ ys) v ≡ write (start + length xs) ys (write start xs v)
write-append start [] ys v = let e : start ≡ start + 0 = omega arith in ap (λ n. write n ys v) e
write-append start (x ∷ xs) ys v =
    let e : start + 1 + length xs ≡ start + suc (length xs) = omega arith in
    let w : ℕ → TerminalCell = λ i. if i == start then x else v i in
    write-append (start + 1) xs ys w ∙ ap (λ n. write n ys (write (start + 1) xs w)) e

draw-history :
    (c : TerminalChange) (v : ℕ → TerminalCell)
    → is_history c ≡ true
    → draw reset (draw c v) ≡ draw c (draw reset v)
draw-history (history_append first_row cells) v e = refl
draw-history (history_replace first_row cells) v e = refl
draw-history (patch start cells) v e = absurd (cc e)
draw-history (fill x y width height c) v e = absurd (cc e)
draw-history (scroll rows c) v e = absurd (cc e)
draw-history (cursor position visible) v e = absurd (cc e)
draw-history reset v e = absurd (cc e)

abbrev screen : Viewer
screen = record {
  View = ℕ → TerminalCell;
  apply = draw;
  halves = write-append;
  clears = λ c v e. refl;
  keeps = draw-history;
}

abbrev nothing : Full
nothing = record {
  full_cells = none;
  position = record { x = 0; y = 0 };
  visible = true;
  history_start = 0;
  history_cells = [];
}

abbrev reports : List Report
reports =
    change (patch 0 (cell 65 ∷ []))
    ∷ change (history_append 0 (cell 66 ∷ []))
    ∷ clear
    ∷ change (patch 3 (cell 67 ∷ []))
    ∷ change (patch 4 (cell 68 ∷ []))
    ∷ []

-- The history stays, the first patch goes, the last two are joined.
abbrev sent : TerminalDelta
sent = record {
  base_revision = 0;
  target_revision = 1;
  changes = history_append 0 (cell 66 ∷ []) ∷ reset ∷ patch 3 (cell 67 ∷ cell 68 ∷ []) ∷ [];
}

abbrev after : ReplicationState
after = record {
  revision = 1;
  journal_capacity = 2;
  pending = [];
  journal = sent ∷ [];
  requires_full_replacement = false;
}

few : (reported reports (new 2)).requires_full_replacement ≡ false
unfolding reported record_change record_reset new
few = refl

commit-sent : commit nothing (reported reports (new 2)) ≡ (ok (committed sent), after)
unfolding commit reported record_change record_reset new
commit-sent = refl

new-fresh : (new 2).pending ≡ []
unfolding new
new-fresh = refl

commit-replay_example :
    replay screen (sent.changes) (λ i. cell i) ≡ watch screen reports (λ i. cell i)
commit-replay_example =
    commit-replay screen reports (new 2) after nothing sent (λ i. cell i) new-fresh few commit-sent

abbrev story : List Call
story =
    records (patch 0 (cell 65 ∷ []))
    ∷ commits nothing
    ∷ records (patch 1 (cell 66 ∷ []))
    ∷ resets
    ∷ commits nothing
    ∷ commits nothing
    ∷ []

calls-since_example :
    let (log, s) = calls story ([], new 2) in delta_since 1 s ≡ since 1 log (length s.journal)
calls-since_example = calls-since 2 story 1

-- The second commit alone, since the reset dropped its patch.
behind :
    delta_since 1 ((calls story ([], new 2)).1)
    ≡ some (delta (record { base_revision = 1; target_revision = 2; changes = reset ∷ [] }))
unfolding calls call record_change record_reset commit delta_since new
behind = refl

-- ===== src/Terminal/Replication/Recording.antt =====
-- What the pending changes of src/terminal/replication.rs do to a viewer. A viewer is not part of the
-- crate; it is a parameter, with the laws on which joining patches and dropping changes rely.
use native.Mathlib.Decide.{ℕ_discrete}
use compukter_vm.Prelude.{
  ℕ, ◌+◌, ◌≡◌, ◌∙◌, refl, sym, ap, inl, inr, some, true, false, List, [], ◌∷◌, ◌++◌, length, ok,
  arith, Option-cases, Bool-cases,
}
use compukter_vm.Terminal.Cells.{TerminalCell}
use compukter_vm.Terminal.Replication.{
  TerminalChange, TerminalDelta, ReplicationState, Full, patch, reset, committed, is_history, join,
  join_last, push, record_change, retain_history, record_reset, commit,
}

pub record Viewer : Type 1 where
  pub View : Type 0
  pub apply : TerminalChange → View → View
  -- A patch can be applied in two halves.
  pub halves :
      (start : ℕ) (xs ys : List TerminalCell) (v : View)
      → apply (patch start (xs ++ ys)) v
        ≡ apply (patch (start + length xs) ys) (apply (patch start xs) v)
  -- A reset undoes all changes to the screen, and leaves the history alone.
  pub clears :
      (c : TerminalChange) (v : View)
      → is_history c ≡ false
      → apply reset (apply c v) ≡ apply reset v
  pub keeps :
      (c : TerminalChange) (v : View)
      → is_history c ≡ true
      → apply reset (apply c v) ≡ apply c (apply reset v)

-- What a terminal reports between two commits.
pub data Report : Type 0 where
  change : TerminalChange → Report
  clear : Report

unfoldable pub reported : List Report → ReplicationState → ReplicationState
reported [] s = s
reported (change c ∷ rs) s = reported rs (record_change c s)
reported (clear ∷ rs) s = reported rs (record_reset s)

-- A full replacement stays due until the next commit.
record_change-full :
    (c : TerminalChange) (s : ReplicationState)
    → (record_change c s).requires_full_replacement ≡ false
    → s.requires_full_replacement ≡ false
unfolding record_change
record_change-full c s e = ground arith

reported_few :
    (rs : List Report) (s : ReplicationState)
    → (reported rs s).requires_full_replacement ≡ false
    → s.requires_full_replacement ≡ false
unfolding reported record_reset
reported_few [] s e = e
reported_few (change c ∷ rs) s e = record_change-full c s (reported_few rs (record_change c s) e)
reported_few (clear ∷ rs) s e =
    record_change-full reset (record s { pending = retain_history s.pending })
      (reported_few rs (record_reset s) e)

commit-pending :
    (full : Full) (s t : ReplicationState) (d : TerminalDelta)
    → s.requires_full_replacement ≡ false
    → commit full s ≡ (ok (committed d), t)
    → d.changes ≡ s.pending
unfolding commit
commit-pending full s t d few e = ground arith

module _ (viewer : Viewer) where
  open viewer use {View, apply, halves, clears, keeps}

  abbrev pub replay : List TerminalChange → View → View
  replay [] v = v
  replay (c ∷ cs) v = replay cs (apply c v)

  -- A viewer that sees each report at once.
  abbrev pub watch : List Report → View → View
  watch [] v = v
  watch (change c ∷ rs) v = watch rs (apply c v)
  watch (clear ∷ rs) v = watch rs (apply reset v)

  replay-append :
      (cs : List TerminalChange) (c : TerminalChange) (v : View)
      → replay (cs ++ c ∷ []) v ≡ apply c (replay cs v)
  replay-append [] c v = refl
  replay-append (b ∷ cs) c v = replay-append cs c (apply b v)

  join-apply :
      (b c j : TerminalChange) (v : View) → join b c ≡ some j → apply j v ≡ apply c (apply b v)
  unfolding join
  join-apply (patch s xs) (patch t ys) j v e = elim (ℕ_discrete (s + length xs) t) [
    | yes q ↦
        let k : patch s (xs ++ ys) ≡ j = ground (arith, q, e) in
        ap (λ c. apply c v) (sym k)
        ∙ halves s xs ys v
        ∙ ap (λ n. apply (patch n ys) (apply (patch s xs) v)) q
    | no q ↦ absurd (ground (arith, q, e))
  ]
  join-apply b c j v e = absurd (cc e)

  join_last-replay :
      (cs : List TerminalChange) (c : TerminalChange) (js : List TerminalChange) (v : View)
      → join_last cs c ≡ some js
      → replay js v ≡ apply c (replay cs v)
  unfolding join_last
  join_last-replay [] c js v e = absurd (cc e)
  join_last-replay (b ∷ []) c js v e = elim (Option-cases (join b c)) [
    | inl apart ↦ absurd (ground (arith, apart, e))
    | inr (j, joined) ↦
        let k : js ≡ j ∷ [] = ground (arith, joined, e) in
        ap (λ t. replay t v) k ∙ join-apply b c j v joined
  ]
  join_last-replay (b ∷ d ∷ cs) c js v e = elim (Option-cases (join_last (d ∷ cs) c)) [
    | inl apart ↦ absurd (ground (arith, apart, e))
    | inr (ks, joined) ↦
        let k : js ≡ b ∷ ks = ground (arith, joined, e) in
        ap (λ t. replay t v) k ∙ join_last-replay (d ∷ cs) c ks (apply b v) joined
  ]

  record_change-replay :
      (c : TerminalChange) (s : ReplicationState) (v : View)
      → (record_change c s).requires_full_replacement ≡ false
      → replay ((record_change c s).pending) v ≡ apply c (replay s.pending v)
  unfolding record_change push
  record_change-replay c s v few = elim (Option-cases (join_last s.pending c)) [
    | inl apart ↦
        let e : (record_change c s).pending ≡ s.pending ++ c ∷ [] = ground (arith, apart, few) in
        ap (λ t. replay t v) e ∙ replay-append s.pending c v
    | inr (js, joined) ↦
        let e : (record_change c s).pending ≡ js = ground (arith, joined, few) in
        ap (λ t. replay t v) e ∙ join_last-replay s.pending c js v joined
  ]

  -- What a reset makes equal stays so under further changes.
  reset-replay :
      (cs : List TerminalChange) (v w : View)
      → apply reset v ≡ apply reset w
      → apply reset (replay cs v) ≡ apply reset (replay cs w)
  reset-replay [] v w e = e
  reset-replay (c ∷ cs) v w e =
      reset-replay cs (apply c v) (apply c w) (elim (Bool-cases (is_history c)) [
        | inl old ↦ keeps c v old ∙ ap (apply c) e ∙ sym (keeps c w old)
        | inr drawn ↦ clears c v drawn ∙ e ∙ sym (clears c w drawn)
      ])

  retain-replay :
      (cs : List TerminalChange) (v : View)
      → apply reset (replay (retain_history cs) v) ≡ apply reset (replay cs v)
  unfolding retain_history
  retain-replay [] v = refl
  retain-replay (c ∷ cs) v = elim (Bool-cases (is_history c)) [
    | inl old ↦ rw old (retain-replay cs (apply c v))
    | inr drawn ↦
        rw drawn (retain-replay cs v ∙ reset-replay cs v (apply c v) (sym (clears c v drawn)))
  ]

  record_reset-replay :
      (s : ReplicationState) (v : View)
      → (record_reset s).requires_full_replacement ≡ false
      → replay ((record_reset s).pending) v ≡ apply reset (replay s.pending v)
  unfolding record_reset
  record_reset-replay s v few =
      record_change-replay reset (record s { pending = retain_history s.pending }) v few
      ∙ retain-replay s.pending v

  reported-replay :
      (rs : List Report) (s : ReplicationState) (v : View)
      → (reported rs s).requires_full_replacement ≡ false
      → replay ((reported rs s).pending) v ≡ watch rs (replay s.pending v)
  unfolding reported
  reported-replay [] s v few = refl
  reported-replay (change c ∷ rs) s v few =
      reported-replay rs (record_change c s) v few
      ∙ ap (watch rs) (record_change-replay c s v (reported_few rs (record_change c s) few))
  reported-replay (clear ∷ rs) s v few =
      reported-replay rs (record_reset s) v few
      ∙ ap (watch rs) (record_reset-replay s v (reported_few rs (record_reset s) few))

  -- A viewer that satisfies the laws and applies what a commit sends, when no change was dropped for
  -- there were too many, comes to the same view as one that sees each report at once.
  pub commit-replay :
      (rs : List Report) (s t : ReplicationState) (full : Full) (d : TerminalDelta) (v : View)
      → s.pending ≡ []
      → (reported rs s).requires_full_replacement ≡ false
      → commit full (reported rs s) ≡ (ok (committed d), t)
      → replay d.changes v ≡ watch rs v
  commit-replay rs s t full d v fresh few e =
      ap (λ cs. replay cs v) (commit-pending full (reported rs s) t d few e)
      ∙ reported-replay rs s v few
      ∙ ap (λ cs. watch rs (replay cs v)) fresh

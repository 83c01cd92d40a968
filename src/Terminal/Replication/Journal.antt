-- ===== src/Terminal/Replication/Journal.antt =====
-- The journal of src/terminal/replication.rs against the list of all commits.
use mathlib.Core.List.{append_assoc, append-nil}
use compukter_vm.Prelude.{
  ℕ, ◌+◌, ◌-◌, ◌≤◌, ◌<◌, ◌≡◌, ◌∙◌, ◌⊎◌, inl, inr, ltb→lt, refl, sym, ap, subst, none, some, false,
  List, [], ◌∷◌, ◌++◌, length, Result, ok, panic, arith, ltb, if◌then◌else◌, length-append,
  Option-cases, Bool-cases,
}
use compukter_vm.Prelude.Word.{checked_add, checked_add-some}
use compukter_vm.Terminal.Replication.{
  TerminalChange, TerminalDelta, TerminalCommit, ReplicationState, Full, committed, new,
  record_change, record_reset, commit, outgoing, seal, trim, is_nil, encoded_cells, gather,
  delta_since, maximum_accumulated_cells,
}
use compukter_vm.Terminal.Replication.Gathering.{
  drop, since, Contig, drop-append, taken, gather-missing, gather-all,
}

-- The calls of a terminal, and the commits so far.
pub data Call : Type 0 where
  records : TerminalChange → Call
  resets : Call
  commits : Full → Call

abbrev log_with : List TerminalDelta → Result (Unit {0}) TerminalCommit → List TerminalDelta
log_with log (ok (committed d)) = log ++ d ∷ []
log_with log _ = log

unfoldable pub call :
    Call → List TerminalDelta × ReplicationState → List TerminalDelta × ReplicationState
call (records change) (log, s) = (log, record_change change s)
call resets (log, s) = (log, record_reset s)
call (commits full) (log, s) = let (r, s') = commit full s in (log_with log r, s')

unfoldable pub calls :
    List Call → List TerminalDelta × ReplicationState → List TerminalDelta × ReplicationState
calls [] t = t
calls (c ∷ cs) t = calls cs (call c t)

-- The journal holds the last commits.
record Inv (log : List TerminalDelta) (s : ReplicationState) : Type 0 where
  pub numbered : length log ≡ s.revision
  pub contig : Contig 0 log
  pub old : List TerminalDelta
  pub split : log ≡ old ++ s.journal

Contig-append :
    (e : ℕ) (xs ys : List TerminalDelta) → Contig e (xs ++ ys) → Contig (e + length xs) ys
Contig-append e [] ys c = subst (λ t. Contig t ys) (omega arith) c
Contig-append e (x ∷ xs) ys c =
    subst (λ t. Contig t ys) (omega arith) (Contig-append (e + 1) xs ys c.2)

Contig-snoc :
    (e : ℕ) (xs : List TerminalDelta) (d : TerminalDelta)
    → Contig e xs
    → d.base_revision ≡ e + length xs
    → d.target_revision ≡ e + length xs + 1
    → Contig e (xs ++ d ∷ [])
Contig-snoc e [] d c b t = (omega arith, omega arith, tt)
Contig-snoc e (x ∷ xs) d c b t =
    (c.0, c.1, Contig-snoc (e + 1) xs d c.2 (omega arith) (omega arith))

module _ (log : List TerminalDelta) (s : ReplicationState) (h : Inv log s) where
  lengths : length h.old + length s.journal ≡ s.revision
  lengths = omega (arith, ap length h.split, length-append h.old s.journal, h.numbered)

  kept : Contig (length h.old) s.journal
  kept =
      subst (λ t. Contig t s.journal) (omega arith)
        (Contig-append 0 h.old s.journal (subst (Contig 0) h.split h.contig))

  gather-kept :
      (k : ℕ)
      → k < length s.journal
      → gather (length h.old + k) s.revision (length h.old + k) [] 0 s.journal
        ≡ taken (length h.old + k) s.revision [] 0 (drop (length h.old + k) log)
  gather-kept k lt =
      gather-all (length h.old + k) s.revision (length h.old) k s.journal kept lt lengths
      ∙ ap (taken (length h.old + k) s.revision [] 0)
          (sym (ap (drop (length h.old + k)) h.split ∙ drop-append h.old s.journal k))

  gather-since :
      (base : ℕ)
      → base < s.revision
      → gather base s.revision base [] 0 s.journal ≡ (
          if ltb (base + length s.journal) (length log)
          then none
          else taken base s.revision [] 0 (drop base log))
  gather-since base lt = elim (Bool-cases (ltb (base + length s.journal) (length log))) [
    | inl gone ↦ rw gone (
        gather-missing base s.revision (length h.old) base s.journal kept
          (ground (arith, lengths, h.numbered)))
    | inr here ↦
        let e : length h.old + (base - length h.old) ≡ base = ground (arith, lengths, h.numbered) in
        rw here (
          subst (λ t. gather t s.revision t [] 0 s.journal ≡ taken t s.revision [] 0 (drop t log)) e
            (gather-kept (base - length h.old) (ground (arith, lengths, h.numbered))))
  ]

  since-exact : (base : ℕ) → delta_since base s ≡ since base log (length s.journal)
  unfolding delta_since since
  since-exact base = elim (Bool-cases (ltb base s.revision)) [
    | inr late ↦ ground (arith, late, h.numbered)
    | inl early ↦ ground (arith, early, h.numbered, gather-since base (ltb→lt _ _ early))
  ]

-- Trimming drops the oldest commits.
trim-suffix :
    (capacity : ℕ) (ds : List TerminalDelta)
    → (old : List TerminalDelta) × (ds ≡ old ++ trim capacity ds)
      × (length (trim capacity ds) ≤ capacity)
unfolding trim
trim-suffix capacity [] = ([], refl, omega arith)
trim-suffix capacity (d ∷ ds) = elim (Bool-cases (ltb capacity (length (d ∷ ds)))) [
  | inl long ↦
      let (old, e, few) = trim-suffix capacity ds in rw long (d ∷ old, ap (λ t. d ∷ t) e, few)
  | inr short ↦ rw short ([], refl, ground arith)
]

record_change-kept :
    (c : TerminalChange) (s : ReplicationState)
    → ((record_change c s).journal ≡ s.journal) × ((record_change c s).revision ≡ s.revision)
unfolding record_change
record_change-kept c s = ground arith

record_reset-kept :
    (s : ReplicationState)
    → ((record_reset s).journal ≡ s.journal) × ((record_reset s).revision ≡ s.revision)
unfolding record_reset
record_reset-kept s = ground arith

Inv-kept :
    {log : List TerminalDelta} {s s' : ReplicationState}
    → Inv log s
    → (s'.journal ≡ s.journal) × (s'.revision ≡ s.revision)
    → Inv log s'
Inv-kept {log} h e = record {
  numbered = h.numbered ∙ sym e.1;
  contig = h.contig;
  old = h.old;
  split = h.split ∙ ap (λ t. h.old ++ t) (sym e.0);
}

module _ (log : List TerminalDelta) (s : ReplicationState) (h : Inv log s)
    (changes : List TerminalChange) where
  abbrev d : TerminalDelta
  d = record { base_revision = s.revision; target_revision = s.revision + 1; changes = changes }

  abbrev pushed : List TerminalDelta
  pushed = if ltb maximum_accumulated_cells (encoded_cells changes) then [] else s.journal ++ d ∷ []

  pushed-suffix : (old : List TerminalDelta) × (log ++ d ∷ [] ≡ old ++ pushed)
  pushed-suffix = elim (Bool-cases (ltb maximum_accumulated_cells (encoded_cells changes))) [
    | inl large ↦ rw large (log ++ d ∷ [], sym (append-nil (log ++ d ∷ [])))
    | inr small ↦
        rw small (h.old, ap (λ t. t ++ d ∷ []) h.split ∙ append_assoc h.old s.journal (d ∷ []))
  ]

  seal_spent :
      checked_add s.revision 1 ≡ none
      → seal changes s ≡ (panic, record s { pending = changes; requires_full_replacement = false })
  unfolding seal
  seal_spent e = ground (arith, e)

  seal_next :
      checked_add s.revision 1 ≡ some (s.revision + 1)
      → seal changes s ≡ (
        ok (committed d),
        record s {
          revision = s.revision + 1;
          pending = [];
          requires_full_replacement = false;
          journal = trim s.journal_capacity pushed;
        },
      )
  unfolding seal
  seal_next e = ground (arith, e)

  seal-Inv : Inv (log_with log ((seal changes s).0)) ((seal changes s).1)
  seal-Inv = elim (Option-cases (checked_add s.revision 1)) [
    | inl spent ↦ rw (seal_spent spent) (Inv-kept h (refl, refl))
    | inr (next, fits) ↦
        let (old, e) = pushed-suffix in
        let (older, f, few) = trim-suffix s.journal_capacity pushed in
        let n : next ≡ s.revision + 1 = (checked_add-some s.revision 1 next fits).0 in
        rw (seal_next (fits ∙ ap some n)) (record {
          numbered = omega (arith, length-append log (d ∷ []), h.numbered);
          contig =
              Contig-snoc 0 log d h.contig (omega (arith, h.numbered)) (omega (arith, h.numbered));
          old = old ++ older;
          split =
              e
              ∙ ap (λ t. old ++ t) f
              ∙ sym (append_assoc old older (trim s.journal_capacity pushed));
        })
  ]

-- A commit sends something, or changes nothing.
commit_cases :
    (full : Full) (s : ReplicationState)
    → (commit full s ≡ (ok (TerminalCommit.unchanged s.revision), s))
      ⊎ (commit full s ≡ (panic, s))
      ⊎ ((changes : List TerminalChange) × (commit full s ≡ seal changes s))
unfolding commit
commit_cases full s =
    elim (Bool-cases (if s.requires_full_replacement then false else is_nil s.pending)) [
      | inl idle ↦ inl (rw idle refl)
      | inr busy ↦ inr (elim (Option-cases (outgoing full s)) [
        | inl missing ↦ inl (ground (arith, busy, missing))
        | inr (changes, sent) ↦ inr (changes, ground (arith, busy, sent))
      ])
    ]

call-Inv :
    (c : Call) (log : List TerminalDelta) (s : ReplicationState)
    → Inv log s
    → Inv ((call c (log, s)).0) ((call c (log, s)).1)
unfolding call
call-Inv (records change) log s h = Inv-kept h (record_change-kept change s)
call-Inv resets log s h = Inv-kept h (record_reset-kept s)
call-Inv (commits full) log s h = elim (commit_cases full s) [
  | inl idle ↦ rw idle h
  | inr other ↦ elim other [
    | inl missing ↦ rw missing h
    | inr (changes, sent) ↦ rw sent (seal-Inv log s h changes)
  ]
]

calls-Inv :
    (cs : List Call) (log : List TerminalDelta) (s : ReplicationState)
    → Inv log s
    → Inv ((calls cs (log, s)).0) ((calls cs (log, s)).1)
unfolding calls
calls-Inv [] log s h = h
calls-Inv (c ∷ cs) log s h = calls-Inv cs _ _ (call-Inv c log s h)

-- After any calls, what the journal offers a viewer at any revision is what a reference computes from
-- all commits: nothing is new at the last revision; behind it, all changes of the commits since, in
-- their order, where these commits are still in the journal and the changes and cells are within the
-- bounds; otherwise nothing, and the viewer is sent the whole terminal.
pub calls-since :
    (capacity : ℕ) (cs : List Call) (base : ℕ)
    → let (log, s) = calls cs ([], new capacity) in
      delta_since base s ≡ since base log (length s.journal)
unfolding new
calls-since capacity cs base = since-exact _ _ (calls-Inv cs [] (new capacity) start) base
  where
    start : Inv [] (new capacity)
    start = record { numbered = refl; contig = tt; old = []; split = refl }

-- ===== src/Terminal/Replication/Gathering.antt =====
-- The loop of `delta_since` of src/terminal/replication.rs, over commits that follow one another.
use mathlib.Core.List.{append_assoc, append-nil}
use compukter_vm.Prelude.{
  ℕ, zero, suc, ◌+◌, ◌≤◌, ◌<◌, ◌≡◌, ◌∙◌, refl, ap, subst, Option, none, some, true, false, ◌&&◌,
  List, [], ◌∷◌, ◌++◌, length, arith, ltb, leb, ◌==◌, if◌then◌else◌, length-append,
}
use compukter_vm.Terminal.Replication.{
  TerminalChange, TerminalDelta, TerminalUpdate, delta, encoded_cells, gather,
  maximum_accumulated_changes, maximum_accumulated_cells,
}

abbrev pub drop {ℓ} : {A : Type ℓ} → ℕ → List A → List A
drop zero xs = xs
drop (suc n) [] = []
drop (suc n) (x ∷ xs) = drop n xs

-- The changes of several commits, one after the other.
abbrev pub all_changes : List TerminalDelta → List TerminalChange
all_changes [] = []
all_changes (d ∷ ds) = d.changes ++ all_changes ds

-- What a viewer at `base` is to be sent, of all commits in `log`, of which the last `kept` are at hand.
unfoldable pub since : ℕ → List TerminalDelta → ℕ → Option TerminalUpdate
unfolding encoded_cells
since base log kept =
    let n = length log in
    let changes = all_changes (drop base log) in
    if base == n
    then some (TerminalUpdate.unchanged n)
    else if ltb n base
    then none
    else if ltb (base + kept) n
    then none
    else if leb (length changes) maximum_accumulated_changes
        && leb (encoded_cells changes) maximum_accumulated_cells
    then some (delta (record { base_revision = base; target_revision = n; changes = changes }))
    else none

length-drop {ℓ} :
    {A : Type ℓ} (k : ℕ) (xs : List A) → k < length xs → length (drop k xs) + k ≡ length xs
length-drop zero xs h = omega arith
length-drop (suc k) [] h = absurd (omega arith)
length-drop (suc k) (x ∷ xs) h = omega (arith, length-drop k xs)

pub drop-append {ℓ} :
    {A : Type ℓ} (xs ys : List A) (k : ℕ) → drop (length xs + k) (xs ++ ys) ≡ drop k ys
drop-append [] ys k = let e : 0 + k ≡ k = omega arith in ap (λ n. drop n ys) e
drop-append (x ∷ xs) ys k =
    let e : suc (length xs) + k ≡ suc (length xs + k) = omega arith in
    ap (λ n. drop n (x ∷ xs ++ ys)) e ∙ drop-append xs ys k

-- The commits lead from revision to revision, from `e` on.
abbrev pub Contig : ℕ → List TerminalDelta → Type 0
Contig e [] = Unit
Contig e (d ∷ ds) = (d.base_revision ≡ e) × (d.target_revision ≡ e + 1) × Contig (e + 1) ds

encoded_cells-append :
    (xs ys : List TerminalChange) → encoded_cells (xs ++ ys) ≡ encoded_cells xs + encoded_cells ys
unfolding encoded_cells
encoded_cells-append [] ys = omega arith
encoded_cells-append (x ∷ xs) ys = omega (arith, encoded_cells-append xs ys)

module _ (base revision : ℕ) where
  -- The loop takes all that is left, within the bounds.
  abbrev pub taken : List TerminalChange → ℕ → List TerminalDelta → Option TerminalUpdate
  taken changes cells ds =
      if leb (length changes + length (all_changes ds)) maximum_accumulated_changes
        && leb (cells + encoded_cells (all_changes ds)) maximum_accumulated_cells
      then some (
          delta (record {
            base_revision = base;
            target_revision = revision;
            changes = changes ++ all_changes ds;
          }))
      else none

  -- One round for a commit that starts where the viewer is.
  gather-step :
      (e : ℕ) (changes : List TerminalChange) (cells : ℕ) (d : TerminalDelta)
      (ds : List TerminalDelta)
      → d.base_revision ≡ e
      → d.target_revision ≡ e + 1
      → gather base revision e changes cells (d ∷ ds) ≡ (
          if ltb maximum_accumulated_changes (length changes + length d.changes)
          then none
          else if ltb maximum_accumulated_cells (cells + encoded_cells d.changes)
          then none
          else if e + 1 == revision
          then some (
              delta (record {
                base_revision = base;
                target_revision = revision;
                changes = changes ++ d.changes;
              }))
          else gather base revision
              (e + 1)
              (changes ++ d.changes)
              (cells + encoded_cells d.changes)
              ds)
  unfolding gather
  gather-step e changes cells d ds b t = rw (b, t, not_past, at_it) refl
    where
      not_past : leb (e + 1) e ≡ false
      not_past = ground arith

      at_it : (e == e) ≡ true
      at_it = ground arith

  gather-taken :
      (e : ℕ) (changes : List TerminalChange) (cells : ℕ) (d : TerminalDelta)
      (ds : List TerminalDelta)
      → Contig e (d ∷ ds)
      → e + length (d ∷ ds) ≡ revision
      → gather base revision e changes cells (d ∷ ds) ≡ taken changes cells (d ∷ ds)
  gather-taken e changes cells d [] c end =
      rw (gather-step e changes cells d [] c.0 c.1, append-nil) (ground (arith, end))
  gather-taken e changes cells d (f ∷ ds) c end =
      rw
        (
          gather-step e changes cells d (f ∷ ds) c.0 c.1,
          gather-taken (e + 1) (changes ++ d.changes) (cells + encoded_cells d.changes) f ds c.2
              (omega arith),
        )
        (ground (
          arith,
          end,
          length-append changes d.changes,
          length-append d.changes (all_changes (f ∷ ds)),
          encoded_cells-append d.changes (all_changes (f ∷ ds)),
          append_assoc changes d.changes (all_changes (f ∷ ds)),
        ))

  gather-past :
      (b : ℕ) (d : TerminalDelta) (ds : List TerminalDelta)
      → d.target_revision ≤ b
      → gather base revision b [] 0 (d ∷ ds) ≡ gather base revision b [] 0 ds
  unfolding gather
  gather-past b d ds h = rw past refl
    where
      past : leb d.target_revision b ≡ true
      past = ground arith

  -- It goes past what the viewer has.
  gather-skip :
      (e k : ℕ) (ds : List TerminalDelta)
      → Contig e ds
      → (gather base revision (e + k) [] 0 ds ≡ gather base revision (e + k) [] 0 (drop k ds))
        × Contig (e + k) (drop k ds)
  gather-skip e zero ds c = (refl, subst (λ t. Contig t ds) (omega arith) c)
  gather-skip e (suc k) [] c = (refl, tt)
  gather-skip e (suc k) (d ∷ ds) c =
      let same : e + 1 + k ≡ e + suc k = omega arith in
      let (g, h) = gather-skip (e + 1) k ds c.2 in
      (
        gather-past (e + suc k) d ds (omega (arith, c.1))
            ∙ subst (λ t. gather base revision t [] 0 ds ≡ gather base revision t [] 0 (drop k ds))
                same g,
        subst (λ t. Contig t (drop k ds)) same h,
      )

  pub gather-missing :
      (e b : ℕ) (ds : List TerminalDelta)
      → Contig e ds
      → b < e
      → gather base revision b [] 0 ds ≡ none
  unfolding gather
  gather-missing e b [] c h = refl
  gather-missing e b (d ∷ ds) c h = rw (not_past, not_at) refl
    where
      not_past : leb d.target_revision b ≡ false
      not_past = ground (arith, c.1)

      not_at : (d.base_revision == b) ≡ false
      not_at = ground (arith, c.0)

  -- What the loop finds in the last commits, of which the first starts at `e`.
  pub gather-all :
      (e k : ℕ) (ds : List TerminalDelta)
      → Contig e ds
      → k < length ds
      → e + length ds ≡ revision
      → gather base revision (e + k) [] 0 ds ≡ taken [] 0 (drop k ds)
  gather-all e k ds c lt end =
      let (g, h) = gather-skip e k ds c in g ∙ go (drop k ds) h (length-drop k ds lt)
    where
      go :
          (xs : List TerminalDelta)
          → Contig (e + k) xs
          → (length xs + k ≡ length ds)
          → gather base revision (e + k) [] 0 xs ≡ taken [] 0 xs
      go [] h l = absurd (omega arith)
      go (d ∷ xs) h l = gather-taken (e + k) [] 0 d xs h (omega arith)

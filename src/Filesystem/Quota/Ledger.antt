-- ===== src/Filesystem/Quota/Ledger.antt =====
-- src/filesystem/quota.rs: the ledger never passes its maxima.
use compukter_vm.Prelude.{◌+◌, ◌≤◌, ◌<◌, ◌≡◌, ◌⊎◌, inl, inr, arith, ltb, Bool-cases, ok, err}
use compukter_vm.Prelude.Word.{word, half_word}
use compukter_vm.Filesystem.Limits.{quota_exceeded}
use compukter_vm.Filesystem.Quota.{MutationCost, reservation, QuotaLedger, reserve, commit, release}

-- The ledger is within its maxima, a `u64` and a `u32`.
abbrev pub IsWithin : QuotaLedger → Type 0
IsWithin q =
    (q.logical_bytes ≤ q.maximum_logical_bytes)
    × (q.maximum_logical_bytes < word)
    × (q.nodes ≤ q.maximum_nodes)
    × (q.maximum_nodes < half_word)

-- There is room for the cost.
abbrev pub Room : MutationCost → QuotaLedger → Type 0
Room cost q =
    (q.logical_bytes + cost.logical_bytes_added ≤ q.maximum_logical_bytes)
    × (q.nodes + cost.nodes_added ≤ q.maximum_nodes)

abbrev pub charged : MutationCost → QuotaLedger → QuotaLedger
charged cost q = record q {
  logical_bytes = q.logical_bytes + cost.logical_bytes_added;
  nodes = q.nodes + cost.nodes_added;
}

abbrev pub Reserves : MutationCost → QuotaLedger → Type 0
Reserves cost q =
    (Room cost q
      × (reserve cost q ≡ ok (reservation cost))
      × (commit (reservation cost) q ≡ ok (charged cost q))
      × IsWithin (charged cost q)
      × (release cost.logical_bytes_added cost.nodes_added (charged cost q) ≡ ok q))
    ⊎ ((Room cost q → ⊥) × (reserve cost q ≡ err quota_exceeded))

module _ (cost : MutationCost) (q : QuotaLedger) (within : IsWithin q) where
  reserve-Room : Room cost q → reserve cost q ≡ ok (reservation cost)
  unfolding reserve
  reserve-Room room = ground arith

  commit-Room : Room cost q → commit (reservation cost) q ≡ ok (charged cost q)
  unfolding commit
  commit-Room room = ground arith

  release-charged : release cost.logical_bytes_added cost.nodes_added (charged cost q) ≡ ok q
  unfolding release
  release-charged = ground arith

  reserve-none : (Room cost q → ⊥) → reserve cost q ≡ err quota_exceeded
  unfolding reserve
  reserve-none full =
      elim (Bool-cases (ltb q.maximum_logical_bytes (q.logical_bytes + cost.logical_bytes_added))) [
        | inl more ↦ ground arith
        | inr fits ↦ elim (Bool-cases (ltb q.maximum_nodes (q.nodes + cost.nodes_added))) [
          | inl more ↦ ground arith
          | inr also ↦ absurd (full (ground arith, ground arith))
        ]
      ]

  -- On a ledger within its maxima a cost is reserved exactly when there is room for it. Committing the
  -- reservation then charges it, does not overflow and stays within the maxima, and releasing the
  -- same amounts restores the ledger.
  pub reserve-exact : Reserves cost q
  reserve-exact =
      elim (Bool-cases (ltb q.maximum_logical_bytes (q.logical_bytes + cost.logical_bytes_added))) [
        | inl more ↦ refuse (λ room. absurd (ground arith))
        | inr fits ↦ elim (Bool-cases (ltb q.maximum_nodes (q.nodes + cost.nodes_added))) [
          | inl more ↦ refuse (λ room. absurd (ground arith))
          | inr also ↦
              let room : Room cost q = (ground arith, ground arith) in
              inl (
                room,
                reserve-Room room,
                commit-Room room,
                (room.0, within.1, room.1, within.3),
                release-charged,
              )
        ]
      ]
    where
      refuse : (Room cost q → ⊥) → Reserves cost q
      refuse full = inr (full, reserve-none full)

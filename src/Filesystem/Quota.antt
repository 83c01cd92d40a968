-- ===== src/Filesystem/Quota.antt =====
-- src/filesystem/quota.rs: the ledger of bytes and nodes. A `u64` and a `u32` are numbers below 2^64
-- and 2^32; the subtractions of `release` and the additions of `commit` panic outside them.
pub mod Ledger
mod Tests
use compukter_vm.Prelude.{
  ℕ, ◌+◌, ◌-◌, ◌≤◌, ◌<◌, Option, none, some, Bool, true, false, ◌||◌, ◌≡◌, refl, ◌⊎◌, inl, inr,
  arith, ltb, Bool-cases, Option-cases, if◌then◌else◌, Result, ok, err, ok_or, expect, and_then,
}
use compukter_vm.Prelude.Word.{word, half_word, checked_add, checked_add_u32, checked_sub}
use compukter_vm.Filesystem.Limits.{FileSystemLimits, FileSystemError, quota_exceeded}

pub record MutationCost : Type 0 where
  pub logical_bytes_added : ℕ
  pub nodes_added : ℕ
  pub journal_bytes : ℕ
  pub queue_records : ℕ

-- `QuotaReservation(MutationCost)`
pub data QuotaReservation : Type 0 where
  reservation : MutationCost → QuotaReservation

pub record QuotaLedger : Type 0 where
  pub maximum_logical_bytes : ℕ
  pub maximum_nodes : ℕ
  pub logical_bytes : ℕ
  pub nodes : ℕ

unfoldable pub new : FileSystemLimits → ℕ → QuotaLedger
new limits initial_nodes = record {
  maximum_logical_bytes = limits.maximum_logical_bytes;
  maximum_nodes = limits.maximum_nodes;
  logical_bytes = 0;
  nodes = initial_nodes;
}

unfoldable pub reserve : MutationCost → QuotaLedger → Result FileSystemError QuotaReservation
reserve cost q =
    and_then (ok_or (checked_add q.logical_bytes cost.logical_bytes_added) quota_exceeded)
      λ logical_bytes.
        and_then (ok_or (checked_add_u32 q.nodes cost.nodes_added) quota_exceeded) λ nodes.
          if ltb q.maximum_logical_bytes logical_bytes || ltb q.maximum_nodes nodes
          then err quota_exceeded
          else ok (reservation cost)

unfoldable pub commit : QuotaReservation → QuotaLedger → Result FileSystemError QuotaLedger
commit (reservation cost) q =
    and_then (expect (checked_add q.logical_bytes cost.logical_bytes_added)) λ logical_bytes.
      and_then (expect (checked_add_u32 q.nodes cost.nodes_added))
        λ nodes. ok (record q { logical_bytes = logical_bytes; nodes = nodes })

unfoldable pub release : ℕ → ℕ → QuotaLedger → Result FileSystemError QuotaLedger
release logical_bytes nodes q = and_then (expect (checked_sub q.logical_bytes logical_bytes)) λ b.
    and_then (expect (checked_sub q.nodes nodes))
      λ n. ok (record q { logical_bytes = b; nodes = n })

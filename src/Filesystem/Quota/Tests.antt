-- ===== src/Filesystem/Quota/Tests.antt =====
-- The ledger on a concrete cost.
use compukter_vm.Prelude.{arith}
use compukter_vm.Filesystem.Limits.{testing}
use compukter_vm.Filesystem.Quota.{MutationCost, new}
use compukter_vm.Filesystem.Quota.Ledger.{IsWithin, Reserves, reserve-exact}

abbrev cost : MutationCost
cost = record { logical_bytes_added = 100; nodes_added = 1; journal_bytes = 120; queue_records = 1 }

fresh-IsWithin : IsWithin (new testing 3)
unfolding new
fresh-IsWithin = (omega arith, omega arith, omega arith, omega arith)

reserve-exact_example : Reserves cost (new testing 3)
reserve-exact_example = reserve-exact cost (new testing 3) fresh-IsWithin

-- ===== src/Filesystem/Handle/Tests.antt =====
-- The table of open files on concrete calls.
use compukter_vm.Prelude.{◌≡◌, refl, [], ◌∷◌, none, some, ok, err, false, arith}
use compukter_vm.Filesystem.Limits.{stale_handle}
use compukter_vm.Filesystem.Handle.{
  FileHandle, OpenFile, HandleTable, read_write, new, reuse, push, open_in, open_file, get, retire,
  close,
}
use compukter_vm.Filesystem.Handle.Opening.{Opens, open_file-Opens}
use compukter_vm.Filesystem.Handle.Closing.{Closes, close-Closes}
use compukter_vm.Filesystem.Handle.Stale.{opens, run, close-stale}

abbrev root_file : OpenFile
root_file = record { path = []; mode = read_write }

abbrev first_handle : FileHandle
first_handle = record { slot = 0; generation = 1 }

-- One open file in a table of two.
abbrev one_open : HandleTable
one_open = record {
  maximum_handles = 2;
  slots = (record { generation = 1; file = some root_file; retired = false }) ∷ [];
}

abbrev one_closed : HandleTable
one_closed = record {
  maximum_handles = 2;
  slots = (record { generation = 2; file = none; retired = false }) ∷ [];
}

opens_the_first : open_file root_file (new 2) ≡ (ok first_handle, one_open)
unfolding open_file open_in push new
opens_the_first = refl

closes_the_first : close first_handle one_open ≡ (ok tt, one_closed)
unfolding close retire
closes_the_first = refl

reuses_the_slot : (open_file root_file one_closed).0 ≡ ok (record { slot = 0; generation = 2 })
unfolding open_file open_in reuse
reuses_the_slot = refl

open_file-Opens_example : Opens root_file one_open (open_file root_file one_open)
open_file-Opens_example = open_file-Opens root_file one_open (omega arith)

close-Closes_example : Closes first_handle one_open (close first_handle one_open)
close-Closes_example = close-Closes first_handle one_open

close-stale_example : get first_handle (run one_closed (opens root_file ∷ [])) ≡ err stale_handle
close-stale_example =
    close-stale first_handle one_open one_closed (opens root_file ∷ []) closes_the_first

-- ===== src/Filesystem/Capability.antt =====
-- src/filesystem/capability.rs: rights over a subtree, and their delegation.
pub mod Attenuation
mod Tests
use compukter_vm.Prelude.{
  ℕ, ◌-◌, ◌^◌, Bool, true, false, ◌&&◌, ◌||◌, Result, ok, err, ◌==◌, not, if◌then◌else◌,
}
use compukter_vm.Prelude.Bits.{bit_and, bit_or}
use compukter_vm.Prelude.Word.{word, half_word}
use compukter_vm.Filesystem.Limits.{FileSystemError, permission_denied}
use compukter_vm.Filesystem.Path.{VirtualPath, is_within}

-- A `u16`, a bit for each operation.
abbrev pub FileRights : Type 0
FileRights = ℕ

abbrev pub inspect : FileRights
inspect = 2 ^ 0

abbrev pub list : FileRights
list = 2 ^ 1

abbrev pub read : FileRights
read = 2 ^ 2

abbrev pub create : FileRights
create = 2 ^ 3

abbrev pub write : FileRights
write = 2 ^ 4

abbrev pub delete : FileRights
delete = 2 ^ 5

abbrev pub rename : FileRights
rename = 2 ^ 6

abbrev pub execute : FileRights
execute = 2 ^ 7

abbrev pub owner : FileRights
owner = 2 ^ 8 - 1

unfoldable pub contains : FileRights → FileRights → Bool
contains self required = bit_and 16 self required == required

unfoldable pub bitor : FileRights → FileRights → FileRights
bitor self rhs = bit_or 16 self rhs

pub record FileCapability : Type 0 where
  pub root : VirtualPath
  pub rights : FileRights
  pub logical_byte_limit : ℕ
  pub operation_limit : ℕ
  pub handle_limit : ℕ

unfoldable pub new : VirtualPath → FileRights → FileCapability
new root rights = record {
  root = root;
  rights = rights;
  logical_byte_limit = word - 1;
  operation_limit = word - 1;
  handle_limit = half_word - 1;
}

unfoldable pub permits : FileCapability → VirtualPath → FileRights → Bool
permits self path required = is_within path self.root && contains self.rights required

unfoldable pub delegate :
    FileCapability → VirtualPath → FileRights → Result FileSystemError FileCapability
delegate self root rights =
    if not (is_within root self.root) || not (contains self.rights rights)
    then err permission_denied
    else ok (record {
      root = root;
      rights = rights;
      logical_byte_limit = self.logical_byte_limit;
      operation_limit = self.operation_limit;
      handle_limit = self.handle_limit;
    })

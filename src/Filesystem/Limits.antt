-- ===== src/Filesystem/Limits.antt =====
-- src/filesystem/error.rs and src/filesystem/limits.rs: the errors and the bounds of a filesystem.
use compukter_vm.Prelude.{ℕ, ◌*◌, ◌^◌}

pub data FileSystemError : Type 0 where
  invalid_path not_found already_exists not_directory is_directory : FileSystemError
  not_executable not_empty read_only permission_denied stale_handle : FileSystemError
  quota_exceeded busy storage_faulted closed : FileSystemError

pub record FileSystemLimits : Type 0 where
  pub maximum_path_bytes : ℕ
  pub maximum_component_bytes : ℕ
  pub maximum_components : ℕ
  pub maximum_logical_bytes : ℕ
  pub maximum_file_bytes : ℕ
  pub maximum_nodes : ℕ
  pub maximum_directory_entries : ℕ
  pub maximum_open_handles : ℕ
  pub maximum_io_bytes : ℕ
  pub maximum_rom_bytes : ℕ
  pub maximum_journal_record_bytes : ℕ
  pub maximum_journal_payload_bytes : ℕ
  pub maximum_checkpoint_bytes : ℕ
  pub maximum_recovery_records : ℕ
  pub maximum_recovery_bytes : ℕ
  pub maximum_persistence_queue_records : ℕ
  pub maximum_persistence_queue_bytes : ℕ

-- `FileSystemLimits::testing`
abbrev pub testing : FileSystemLimits
testing = record {
  maximum_path_bytes = 256;
  maximum_component_bytes = 64;
  maximum_components = 16;
  maximum_logical_bytes = 2 ^ 20;
  maximum_file_bytes = 2 ^ 16;
  maximum_nodes = 1024;
  maximum_directory_entries = 256;
  maximum_open_handles = 32;
  maximum_io_bytes = 4096;
  maximum_rom_bytes = 2 ^ 20;
  maximum_journal_record_bytes = 2 ^ 16;
  maximum_journal_payload_bytes = 2 ^ 15;
  maximum_checkpoint_bytes = 2 ^ 20;
  maximum_recovery_records = 1024;
  maximum_recovery_bytes = 4 * 2 ^ 20;
  maximum_persistence_queue_records = 64;
  maximum_persistence_queue_bytes = 2 ^ 20;
}

-- `FileSystemLimits::default`
abbrev pub default : FileSystemLimits
default = record {
  maximum_path_bytes = 4096;
  maximum_component_bytes = 255;
  maximum_components = 64;
  maximum_logical_bytes = 64 * 2 ^ 20;
  maximum_file_bytes = 8 * 2 ^ 20;
  maximum_nodes = 65536;
  maximum_directory_entries = 4096;
  maximum_open_handles = 256;
  maximum_io_bytes = 64 * 2 ^ 10;
  maximum_rom_bytes = 16 * 2 ^ 20;
  maximum_journal_record_bytes = 2 ^ 20;
  maximum_journal_payload_bytes = 512 * 2 ^ 10;
  maximum_checkpoint_bytes = 128 * 2 ^ 20;
  maximum_recovery_records = 65536;
  maximum_recovery_bytes = 512 * 2 ^ 20;
  maximum_persistence_queue_records = 4096;
  maximum_persistence_queue_bytes = 64 * 2 ^ 20;
}

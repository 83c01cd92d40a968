-- ===== src/Terminal/Cells.antt =====
-- The cells and positions of src/terminal/state.rs.
use compukter_vm.Prelude.{ℕ}

pub record TerminalCell : Type 0 where
  pub code_point : ℕ
  pub foreground : ℕ
  pub background : ℕ

pub record TerminalPosition : Type 0 where
  pub x : ℕ
  pub y : ℕ

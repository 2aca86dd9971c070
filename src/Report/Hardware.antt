-- ===== src/Report/Hardware.antt =====
-- validateInventory of internal/report/validate.go: what an accepted inventory is.
pub mod Rules
pub mod Valid
pub mod Check

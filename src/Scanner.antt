-- ===== src/Scanner.antt =====
-- The scan of a folder (internal/scanner/scanner.go).
pub mod Natural
pub mod Key
pub mod Order
pub mod Scan
pub mod Jobs

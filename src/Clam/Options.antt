-- ===== src/Clam/Options.antt =====
-- `ScanOptions` of internal/clamav/scan.go
use clamav_webui.Prelude.{Bool}
use clamav_webui.Prelude.Int.{ℤ}

pub record ScanOptions : Type 0 where
  pub recursive : Bool
  pub follow_symlinks : Bool
  pub max_file_size_mb : ℤ
  pub max_scan_size_mb : ℤ
  pub force_clamscan : Bool

-- ===== src/Db/Quarantine.antt =====
-- internal/db/quarantine.go
use clamav_webui.Prelude.{ℕ, String, Option}
use clamav_webui.Db.Table
use clamav_webui.Db.Table.{Table}

pub data ItemStatus : Type 0 where
  held restored deleted : ItemStatus

-- `scan_id` is `none` where the column is NULL.
pub record QuarantineItem : Type 0 where
  pub store_name : String
  pub orig_path : String
  pub signature : String
  pub sha256 : String
  pub scan_id : Option ℕ
  pub status : ItemStatus
  pub orig_mode : ℕ

unfoldable pub add_quarantine :
    String
    → String
    → String
    → String
    → Option ℕ
    → ℕ
    → Table QuarantineItem
    → Table QuarantineItem × ℕ
add_quarantine store_name orig_path signature sha256 scan_id orig_mode t =
    Table.insert
      (record {
        store_name = store_name;
        orig_path = orig_path;
        signature = signature;
        sha256 = sha256;
        scan_id = scan_id;
        status = held;
        orig_mode = orig_mode;
      })
      t

unfoldable pub set_quarantine_status : ℕ → ItemStatus → Table QuarantineItem → Table QuarantineItem
set_quarantine_status id status = Table.update id (λ i. record i { status = status })

unfoldable pub get_quarantine : ℕ → Table QuarantineItem → Option QuarantineItem
get_quarantine = Table.find

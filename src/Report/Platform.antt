-- ===== src/Report/Platform.antt =====
-- What the report package takes from net, encoding/json and crypto/sha256.
use server_status.Base.{ℕ, Bool, List, Option}
use server_status.Base.Text.{Text}
use server_status.Report.Inventory.{Inventory}

pub record Platform : Type 0 where
  -- `net.ParseIP(s) != nil`
  pub is_ip : Text → Bool
  -- `net.ParseCIDR(s)` returns no error
  pub is_cidr : Text → Bool
  -- `json.Marshal(inventory)`; `none` is an error
  pub marshal : Inventory → Option (List ℕ)
  -- `hex.EncodeToString` of `sha256.Sum256`
  pub sha256_hex : List ℕ → Text

-- ===== src/Tui/Status/Agreement.antt =====
-- The mark of an account in the terminal interface, over HTTP and on the command line.
use nfuse.Base.{ℕ, ◌≡◌, ◌↔◌, true, ◌≤◌, arith}
use nfuse.Base.Float64.{Float64}
use nfuse.Model.{has_quota, limit_bytes}
use nfuse.Model
use nfuse.Model.Validation.{IsMetered, IsMetered-iff}
use nfuse.Engine.Views.{AccountView}
use nfuse.HttpApi.{
  Mark, no_mark, expired_mark, breached_mark, Block, limited, unmetered, block, account_json,
}
use nfuse.HttpApi
use nfuse.Cli.Report.{Standing, standing}
use nfuse.Tui.Status.{
  Status, status_unlimited, status_expired, status_breached, status_ok, row_status,
}

-- The mark of a block of the text report, as a status of the table.
pub status_of : Block → Status
status_of (unmetered name tier used ports) = status_unlimited
status_of (limited name tier used limit expires expired_mark ports) = status_expired
status_of (limited name tier used limit expires breached_mark ports) = status_breached
status_of (limited name tier used limit expires no_mark ports) = status_ok

-- The standing that the command line prints, for an account with a quota.
pub status_of_standing : Standing → Status
status_of_standing Standing.expired = status_expired
status_of_standing Standing.breached = status_breached
status_of_standing Standing.in_order = status_ok

module _ (convert : Float64 → ℕ) (v : AccountView) where
  -- The table marks an account as the text report over HTTP does; the JSON object of an account says
  -- "breached" exactly if its tier is a or b and its usage in the view has reached its quota, expired or
  -- not, and "expired" as the view has it; and the command line marks
  -- an account with a quota as the table does if the stored usage is the usage in the view.
  pub row_status-block :
      (row_status convert v ≡ status_of (block convert v))
      × (((account_json convert v).breached ≡ true)
          ↔ (IsMetered v.account.tier × (limit_bytes convert v.account ≤ v.used_bytes)))
      × ((account_json convert v).expired ≡ v.expired)
      × (has_quota v.account.tier ≡ true
          → v.account.used_bytes ≡ v.used_bytes
          → row_status convert v ≡ status_of_standing (standing convert v))
  unfolding row_status block status_of account_json HttpApi.breached standing status_of_standing
      Model.breached
  row_status-block = ground (arith, IsMetered-iff v.account.tier)

-- ===== src/Cli/Report.antt =====
-- What list prints: writeJSON and writeHuman of internal/cli/commands.go. Byte counts stand for what
-- FormatBytes prints of them.
use nfuse.Base.{ℕ, Bool, Option, none, some, List, map, if◌then◌else◌}
use nfuse.Base.Int.{ℤ, pos}
use nfuse.Base.Text.{Text}
use nfuse.Base.Float64.{Float64}
use nfuse.Model.{Account, Tier, has_quota, resets, has_expiry, limit_bytes, describe}
use nfuse.Model.Expiry.{Location, format_expiry}
use nfuse.Engine.Views.{AccountView, PortView}
use nfuse.Rpc.Client.{tier_text}

pub record JsonPort : Type 0 where
  pub id : ℕ
  pub start : ℕ
  pub end : ℕ

pub record JsonAccount : Type 0 where
  pub id : ℕ
  pub name : Text
  pub tier : Text
  pub limit_gib : Float64
  pub limit_bytes : ℕ
  pub used_bytes : ℕ
  pub expires_unix : ℤ
  pub expired : Bool
  pub ports : List JsonPort

pub data Standing : Type 0 where
  in_order expired breached : Standing

-- The first line of an account: used and limit, the anchor day, the expiry and the mark; or the use
-- without a limit.
pub data Line : Type 0 where
  metered : ℕ → ℕ → Option ℤ → Option Text → Standing → Line
  unmetered : ℕ → Line

pub record Paragraph : Type 0 where
  pub id : ℕ
  pub name : Text
  pub tier : Text
  pub line : Line
  pub ports : List PortView

json_port : PortView → JsonPort
json_port p = record { id = p.port_id; start = p.start; end = p.end }

module _ (convert : Float64 → ℕ) where
  pub json_account : AccountView → JsonAccount
  unfolding json_port
  json_account v = record {
    id = v.account.id;
    name = v.account.name;
    tier = tier_text v.account.tier;
    limit_gib = v.account.limit_gib;
    limit_bytes = limit_bytes convert v.account;
    used_bytes = v.used_bytes;
    expires_unix = if has_expiry v.account then v.account.expires_unix else pos 0;
    expired = v.expired;
    ports = map json_port v.ports;
  }

  -- By the usage of the account that is stored.
  unfoldable pub standing : AccountView → Standing
  standing v =
      if v.expired
      then Standing.expired
      else if nfuse.Model.breached convert v.account
      then Standing.breached
      else in_order

  paragraph : Location → AccountView → Paragraph
  unfolding standing
  paragraph loc v = record {
    id = v.account.id;
    name = v.account.name;
    tier = describe v.account.tier;
    line =
        if has_quota v.account.tier
        then metered v.used_bytes (limit_bytes convert v.account)
            (if resets v.account.tier then some v.account.billing_anchor_day else none)
            (if has_expiry v.account then some (format_expiry loc v.account.expires_unix) else none)
            (standing v)
        else unmetered v.used_bytes;
    ports = v.ports;
  }

  -- No paragraph stands for "(no accounts)".
  pub human : Location → List AccountView → List Paragraph
  unfolding paragraph
  human loc views = map (paragraph loc) views

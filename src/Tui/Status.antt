-- ===== src/Tui/Status.antt =====
-- internal/tui/tui.go: the cells of a row, the status line and the health of the daemon in it. Numbers of
-- bytes and times stand unformatted; colours are left out.
pub mod Agreement
pub mod Polling
use nfuse.Base.{
  ℕ, zero, suc, ◌+◌, ◌-◌, ◌*◌, ◌≡◌, refl, Bool, true, false, Option, none, some, List, [], ◌∷◌, leb,
  ◌==◌, if◌then◌else◌, Result, ok, err,
}
use nfuse.Base.Int.{ℤ, pos}
use nfuse.Base.Text.{Text}
use nfuse.Base.Float64.{Float64}
use nfuse.Model.{Account, Tier, Port, has_quota, limit_bytes}
use nfuse.Model.Expiry.{Location, format_expiry}
use nfuse.Engine.Views.{AccountView, PortView}
use nfuse.Rpc.{HealthResult}

pub data Status : Type 0 where
  status_unlimited status_expired status_breached status_ok : Status

-- The cells of an account's row; without a quota, limit and expiry are dashes.
pub record AccountCells : Type 0 where
  pub name : Text
  pub tier : Tier
  pub used : ℕ
  pub limit : Option ℕ
  pub expires : Option Text
  pub status : Status

pub record PortCells : Type 0 where
  pub label : ℕ × ℕ
  pub in_bytes : ℕ
  pub out_bytes : ℕ

port_cells : PortView → PortCells
port_cells p = record { label = (p.start, p.end); in_bytes = p.in_bytes; out_bytes = p.out_bytes }

module _ (convert : Float64 → ℕ) where
  pub row_status : AccountView → Status
  row_status v =
      if has_quota v.account.tier
      then if v.expired
        then status_expired
        else if leb (limit_bytes convert v.account) v.used_bytes
        then status_breached
        else status_ok
      else status_unlimited

  account_cells : Location → AccountView → AccountCells
  unfolding row_status
  account_cells loc v = record {
    name = v.account.name;
    tier = v.account.tier;
    used = v.used_bytes;
    limit = if has_quota v.account.tier then some (limit_bytes convert v.account) else none;
    expires =
        if has_quota v.account.tier then some (format_expiry loc v.account.expires_unix) else none;
    status = row_status v;
  }

-- What the status line begins with: the last error, or the time of the render.
pub data Leading : Type 0 where
  sampling_at : ℤ → Leading
  last_error : Text → Leading

leading : ℤ → Text → Leading
leading now [] = sampling_at now
leading now (c ∷ error) = last_error (c ∷ error)

-- The cached health and the renders until it is fetched again; a count below 0 is as 0.
pub record Polled : Type 0 where
  pub cache : Option HealthResult
  pub countdown : ℕ

pub health_refresh_ticks : ℕ
health_refresh_ticks = 5

fetched : {W : Type 0} → Polled → Result Text HealthResult × W → Polled × W
unfolding health_refresh_ticks
fetched p (ok h, w) = (record { cache = some h; countdown = health_refresh_ticks }, w)
fetched p (err e, w) = (record { cache = p.cache; countdown = 0 }, w)

module _ {W : Type 0} (health : W → Result Text HealthResult × W) where
  -- One render's fetch, if one is due.
  fetch : Polled × W → Polled × W
  unfolding fetched
  fetch (p, w) = if p.countdown == 0 then fetched p (health w) else (p, w)

  -- healthLine: what it shows is the cache.
  pub health_line : Polled × W → Polled × W
  unfolding fetch
  health_line s =
      let (p, w) = fetch s in (record { cache = p.cache; countdown = p.countdown - 1 }, w)

  -- That many renders.
  pub health_lines : ℕ → Polled × W → Polled × W
  health_lines zero s = s
  health_lines (suc n) s = health_lines n (health_line s)

-- statusLine of render.
status_line : ℤ → Text → Polled → Leading × Option HealthResult
unfolding leading
status_line now error p = (leading now error, p.cache)

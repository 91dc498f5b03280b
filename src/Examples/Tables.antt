-- ===== src/Examples/Tables.antt =====
-- Examples of the theorems on internal/tui/tui.go: the selected port moves down by a new row.
use nfuse.Base.{
  if◌then◌else◌, ℕ, ◌+◌, ◌==◌, any, ◌^◌, ◌≤◌, ◌↔◌, true, none, Result, ok, refl, find, ◌≡◌, false,
  some, List, [], ◌∷◌,
}
use nfuse.Base.Int.{pos}
use nfuse.Base.Text.{Text, codes}
use nfuse.Base.Float64.{fin}
use nfuse.Model.{one_shot, has_quota, limit_bytes}
use nfuse.HttpApi.{block, account_json}
use nfuse.Model.Validation.{IsMetered}
use nfuse.Cli.Report.{standing}
use nfuse.Rpc.{HealthResult}
use nfuse.Tui.Status.{row_status, health_lines}
use nfuse.Tui.Status.Agreement.{status_of, status_of_standing, row_status-block}
use nfuse.Tui.Status.Polling.{due, asked, asks_every_five}
use nfuse.Engine.Views.{AccountView, PortView}
use nfuse.Tui.{Ui, row_port, table_rows, port_row, account_row, is_port, render}
use nfuse.Tui.Dialogs.{unhandled, opened, delete_port_prompt, dispatch_key}
use nfuse.Tui.Steady.{refresh_keeps_target}
use nfuse.Examples.{alice, bob}
use nfuse.Examples.Shells.{direct, utc}
use nfuse.Tui.Input.{KeyEvent, on_key, highlighted, on_key-highlighted}
use nfuse.Tui.Help.{HelpItem, help_items}

abbrev ssh_port : PortView
ssh_port = record { port_id = 9; start = 70; end = 70; in_bytes = 0; out_bytes = 0 }

abbrev web_port : PortView
web_port = record { port_id = 1; start = 80; end = 90; in_bytes = 0; out_bytes = 0 }

abbrev both : List AccountView
both =
    record { account = bob; used_bytes = 0; expired = false; ports = [] }
    ∷ record { account = alice; used_bytes = 10; expired = false; ports = ssh_port ∷ web_port ∷ [] }
    ∷ []

abbrev on_web : Ui
on_web = record {
  rows = [];
  cursor = 2;
  selection = some (record { kind = row_port; account_id = 1; port_id = 1 });
}

web_there : find (is_port 1) (table_rows both) ≡ some (port_row alice web_port)
unfolding table_rows port_row account_row is_port
web_there = refl

refresh_keeps_target_example :
    dispatch_key direct utc (λ x. 0) b'x' (render both on_web) 10
    ≡ (opened (delete_port_prompt 1), 10)
refresh_keeps_target_example =
    refresh_keeps_target direct utc (λ x. 0) both on_web 1 1 (port_row alice web_port) 10 refl
      web_there

abbrev full_view : AccountView
full_view = record { account = alice; used_bytes = 2 ^ 30; expired = false; ports = [] }

row_status-block_example :
    (row_status (λ x. 0) full_view ≡ status_of (block (λ x. 0) full_view))
    × (((account_json (λ x. 0) full_view).breached ≡ true)
        ↔ (IsMetered one_shot × (limit_bytes (λ x. 0) alice ≤ 2 ^ 30)))
    × ((account_json (λ x. 0) full_view).expired ≡ false)
    × (has_quota one_shot ≡ true
        → ◌≡◌ {A = ℕ} 10 (2 ^ 30)
        → row_status (λ x. 0) full_view ≡ status_of_standing (standing (λ x. 0) full_view))
row_status-block_example = row_status-block (λ x. 0) full_view

-- A daemon that counts how often it is asked.
abbrev counting : ℕ → Result Text HealthResult × ℕ
counting n = (
  ok (record {
    alive = true;
    iface = codes "eth0";
    kernel_ok = true;
    kernel_version = codes "6.1.0";
    uptime_seconds = fin false 1 (pos 0);
    last_persist_unix = pos 0;
  }),
  n + 1,
)

asks_every_five_example :
    ((health_lines counting 15 (due none, 0)).1 ≡ 3)
    × ((health_lines counting 15 (due none, 0)).0.countdown ≡ 0)
unfolding asked
asks_every_five_example = asks_every_five counting 3 none 0 (λ n. (_, refl))

on_key-highlighted_example :
    let event : KeyEvent = record { is_ctrl_c = false; rune = b'x' } in
    on_key direct utc (λ x. 0) event (render both on_web) 10 ≡ (
      if any (λ (it : HelpItem). it.key == b'x') help_items
      then (
        none,
        (highlighted direct utc (λ x. 0) ((b'x' ∷ []) ∷ []) (render both on_web) 10).0,
        (highlighted direct utc (λ x. 0) ((b'x' ∷ []) ∷ []) (render both on_web) 10).1,
      )
      else (some event, unhandled, 10))
on_key-highlighted_example = on_key-highlighted direct utc (λ x. 0) b'x' (render both on_web) 10

-- ===== src/Tui/Dialogs.antt =====
-- internal/tui/tui.go: the keys, the forms and prompts that they open, and what the buttons of those do over
-- the client. An Input holds what the fields read as when a button is pressed.
use nfuse.Base.{
  ℕ, zero, suc, Bool, false, not, ◌&&◌, Option, none, some, List, [], ◌∷◌, map, find, length,
  is_empty, ltb, ◌==◌, if◌then◌else◌, Result, ok, err,
}
use nfuse.Base.Int.{ℤ, pos, negsuc}
use nfuse.Base.Text.{Text, codes}
use nfuse.Base.Float64.{Float64, nan, inf, fin}
use nfuse.Model.{Tier, gib_to_bytes, monthly, one_shot, unlimited, has_quota}
use nfuse.Model.Expiry.{Location, parse_expiry}
use nfuse.Engine.Views.{AccountView}
use nfuse.Rpc.Client.{StateResult}
use nfuse.Rpc.Client.Calls.{OpClient}
use nfuse.Cli.{CliError, parse_port_spec}
use nfuse.Cli.Commands.{is_zero}
use nfuse.Tui.{row_account, row_port, for_kind, RowRef, Ui, selected}

pub data Message : Type 0 where
  select_account_first select_account_row select_port_row need_two_accounts : Message
  cannot_expire no_usage : Text → Message
  only_quota bad_usage bad_destination bad_expiry : Message
  bad_port : CliError → Message
  failed : Text → Text → Message

-- What is on the screen above the table, with what its buttons act on.
pub data Dialog : Type 0 where
  add_account_form : Dialog
  expiry_form tier_form usage_form reset_prompt add_port_form edit_port_form delete_port_prompt :
      ℕ → Dialog
  delete_prompt : ℕ → Bool → Dialog
  move_form : ℕ → List ℕ → Dialog
  flash : Message → Dialog

pub data Handled : Type 0 where
  stopped unhandled : Handled
  opened : Dialog → Handled

-- `text` is the one free text of the form; a limit or a day that does not parse reads as Go leaves it.
pub record Input : Type 0 where
  pub button : ℕ
  pub name : Text
  pub text : Text
  pub option : ℤ
  pub limit : Float64
  pub anchor : ℤ
  pub usage : Option Float64

pub views_of : StateResult → List AccountView
views_of (none, status) = []
views_of (some views, status) = views

-- The guards of the handlers: any row, an account row, a port row.
any_row : Option RowRef → (RowRef → Dialog) → Dialog
any_row none open_it = flash select_account_first
any_row (some r) open_it = open_it r

account_row_only : Option RowRef → (RowRef → Dialog) → Dialog
account_row_only none open_it = flash select_account_row
account_row_only (some r) open_it = elim r.kind [
  | row_account ↦ open_it r
  | row_port ↦ flash select_account_row
]

unfoldable pub port_row_only : Option RowRef → (RowRef → Dialog) → Dialog
port_row_only none open_it = flash select_port_row
port_row_only (some r) open_it = for_kind r.kind (open_it r) (flash select_port_row)

expiry_dialog : RowRef → Dialog
expiry_dialog r =
    if has_quota r.account.tier
    then expiry_form r.account.id
    else flash (cannot_expire r.account.name)

usage_dialog : RowRef → Dialog
usage_dialog r =
    if has_quota r.account.tier then usage_form r.account.id else flash (no_usage r.account.name)

-- The delete cascades if the first account of that id has ports.
has_ports : ℕ → List AccountView → Bool
has_ports id views = elim (find (λ (v : AccountView). v.account.id == id) views) [
  | none ↦ false
  | some v ↦ not (is_empty v.ports)
]

move_dialog : List AccountView → RowRef → Dialog
move_dialog views r =
    let ids = map (λ (v : AccountView). v.account.id) views in
    if ltb (length ids) 2 then flash need_two_accounts else move_form r.port_id ids

tier_from_option : ℤ → Tier
tier_from_option (pos zero) = monthly
tier_from_option (pos (suc zero)) = one_shot
tier_from_option _ = unlimited

-- gib < 0; no comparison with a NaN holds.
below_zero : Float64 → Bool
below_zero nan = false
below_zero (inf sign) = sign
below_zero (fin sign mantissa exponent) = sign && not (mantissa == 0)

nth_id : ℤ → List ℕ → Option ℕ
nth_id _ [] = none
nth_id (pos zero) (id ∷ ids) = some id
nth_id (pos (suc n)) (id ∷ ids) = nth_id (pos n) ids
nth_id (negsuc n) (id ∷ ids) = none

pub data Pressed : Type 0 where
  dismissed rendered : Pressed
  flashed : Message → Pressed

acted : {W A : Type 0} → Text → Result Text A × W → Pressed × W
acted what (err e, w) = (flashed (failed what e), w)
acted what (ok x, w) = (rendered, w)

module _ {W : Type 0} (client : OpClient W) (loc : Location) (convert : Float64 → ℕ) where
  unfoldable pub with_views : (List AccountView → Dialog) → W → Handled × W
  unfolding views_of
  with_views open_it w =
      let read = client.read_view w in (opened (open_it (views_of read.0)), read.1)

  unfoldable pub delete_key : Option RowRef → W → Handled × W
  unfolding account_row_only has_ports with_views
  delete_key none w = (opened (flash select_account_row), w)
  delete_key (some r) w =
      for_kind r.kind (opened (flash select_account_row), w)
        (with_views (λ views. delete_prompt r.account_id (has_ports r.account_id views)) w)

  unfoldable pub move_key : Option RowRef → W → Handled × W
  unfolding move_dialog with_views
  move_key none w = (opened (flash select_port_row), w)
  move_key (some r) w =
      for_kind r.kind (with_views (λ views. move_dialog views r) w)
        (opened (flash select_port_row), w)

  -- dispatch: what a key opens, on the selected row.
  unfoldable pub dispatch_key : ℕ → Ui → W → Handled × W
  unfolding any_row account_row_only port_row_only expiry_dialog usage_dialog delete_key move_key
  dispatch_key key u w =
      if key == b'q'
      then (stopped, w)
      else if key == b'a'
      then (opened add_account_form, w)
      else if key == b'd'
      then delete_key (selected u) w
      else if key == b'p'
      then (opened (any_row (selected u) (λ r. add_port_form r.account_id)), w)
      else if key == b'e'
      then (opened (port_row_only (selected u) (λ r. edit_port_form r.port_id)), w)
      else if key == b'x'
      then (opened (port_row_only (selected u) (λ r. delete_port_prompt r.port_id)), w)
      else if key == b'm'
      then move_key (selected u) w
      else if key == b't'
      then (opened (any_row (selected u) (λ r. tier_form r.account.id)), w)
      else if key == b'r'
      then (opened (any_row (selected u) (λ r. reset_prompt r.account_id)), w)
      else if key == b'u'
      then (opened (account_row_only (selected u) usage_dialog), w)
      else if key == b'v'
      then (opened (any_row (selected u) expiry_dialog), w)
      else (unhandled, w)

  expiry_after : ℤ → Result Text ℕ × W → Pressed × W
  unfolding acted
  expiry_after expires (err e, w) = (flashed (failed (codes "add account") e), w)
  expiry_after expires (ok id, w) =
      if is_zero expires
      then (rendered, w)
      else acted (codes "account added, but setting its expiry") (client.set_expiry id expires w)

  create : Input → Option ℤ → W → Pressed × W
  unfolding expiry_after tier_from_option
  create i none w = (flashed bad_expiry, w)
  create i (some expires) w =
      let tier = tier_from_option i.option in
      if not (is_zero expires) && not (has_quota tier)
      then (flashed only_quota, w)
      else expiry_after expires (client.add_account i.name tier i.limit i.anchor w)

  on_expiry : ℕ → Option ℤ → W → Pressed × W
  unfolding acted
  on_expiry id none w = (flashed bad_expiry, w)
  on_expiry id (some expires) w = acted (codes "set expiry") (client.set_expiry id expires w)

  on_spec :
      Text → (ℕ → ℕ → W → Result Text (Unit {0}) × W) → Result CliError (ℕ × ℕ) → W → Pressed × W
  unfolding acted
  on_spec what call (err e) w = (flashed (bad_port e), w)
  on_spec what call (ok range) w = acted what (call range.0 range.1 w)

  on_destination : ℕ → Option ℕ → W → Pressed × W
  unfolding acted
  on_destination port_id none w = (flashed bad_destination, w)
  on_destination port_id (some id) w = acted (codes "move port") (client.move_port port_id id w)

  on_usage : ℕ → Option Float64 → W → Pressed × W
  unfolding acted below_zero
  on_usage id none w = (flashed bad_usage, w)
  on_usage id (some gib) w =
      if below_zero gib
      then (flashed bad_usage, w)
      else acted (codes "set usage") (client.set_usage id (gib_to_bytes convert gib) w)

  confirm_tier : ℕ → Input → W → Pressed × W
  unfolding acted tier_from_option
  confirm_tier id i w =
      acted (codes "change tier")
        (client.set_tier id (tier_from_option i.option) i.limit i.anchor w)

  confirm_delete_port : ℕ → W → Pressed × W
  unfolding acted
  confirm_delete_port id w = acted (codes "delete port") (client.delete_port id w)

  -- A press of the first button, which carries the dialog out.
  confirmed : Dialog → Input → W → Pressed × W
  unfolding acted confirm_tier confirm_delete_port create on_expiry on_spec on_destination on_usage
      nth_id
  confirmed add_account_form i w = create i (parse_expiry loc i.text) w
  confirmed (expiry_form id) i w = on_expiry id (parse_expiry loc i.text) w
  confirmed (tier_form id) i w = confirm_tier id i w
  confirmed (usage_form id) i w = on_usage id i.usage w
  confirmed (reset_prompt id) i w = acted (codes "reset") (client.reset_account id w)
  confirmed (add_port_form id) i w =
      on_spec (codes "add port") (client.add_port id) (parse_port_spec i.text) w
  confirmed (edit_port_form id) i w =
      on_spec (codes "edit port") (client.edit_port id) (parse_port_spec i.text) w
  confirmed (delete_port_prompt id) i w = confirm_delete_port id w
  confirmed (delete_prompt id cascade) i w =
      acted (codes "delete account") (client.delete_account id cascade w)
  confirmed (move_form port_id ids) i w = on_destination port_id (nth_id i.option ids) w
  confirmed (flash m) i w = (dismissed, w)

  press : Dialog → Input → W → Pressed × W
  unfolding confirmed
  press d i w = if i.button == 0 then confirmed d i w else (dismissed, w)

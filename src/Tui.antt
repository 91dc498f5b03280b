-- ===== src/Tui.antt =====
-- internal/tui/tui.go: the rows of the table and the selection that a render restores. The table itself,
-- which calls onSelectionChanged on each Select, and the layout are those of a library.
pub mod Selection
pub mod Dialogs
pub mod Steady
pub mod Status
pub mod Help
pub mod Input
use nfuse.Base.{
  ℕ, zero, suc, Bool, true, false, ◌&&◌, Option, none, some, List, [], ◌∷◌, ◌++◌, map, ◌==◌,
  if◌then◌else◌,
}
use nfuse.Model.{Account}
use nfuse.Engine.Views.{AccountView, PortView}

pub data RowKind : Type 0 where
  row_account row_port : RowKind

-- What stands in a row; an account row has no port.
pub record RowRef : Type 0 where
  pub kind : RowKind
  pub account_id : ℕ
  pub account : Account
  pub port_id : ℕ
  pub start : ℕ
  pub end : ℕ

-- The entity that is remembered as selected.
pub record Selected : Type 0 where
  pub kind : RowKind
  pub account_id : ℕ
  pub port_id : ℕ

-- The parts of UI that a render reads and writes. `rows` is rowRef, whose keys are the numbers from 1 on
-- without a gap, and `cursor` the row that the table has selected.
pub record Ui : Type 0 where
  pub rows : List RowRef
  pub cursor : ℕ
  pub selection : Option Selected

unfoldable pub port_row : Account → PortView → RowRef
port_row a p = record {
  kind = row_port;
  account_id = a.id;
  account = a;
  port_id = p.port_id;
  start = p.start;
  end = p.end;
}

unfoldable pub account_row : Account → RowRef
account_row a = record {
  kind = row_account;
  account_id = a.id;
  account = a;
  port_id = 0;
  start = 0;
  end = 0;
}

unfoldable pub table_rows : List AccountView → List RowRef
unfolding port_row account_row
table_rows [] = []
table_rows (v ∷ views) =
    account_row v.account ∷ (map (port_row v.account) v.ports ++ table_rows views)

pub nth : ℕ → List RowRef → Option RowRef
nth n [] = none
nth zero (r ∷ rs) = some r
nth (suc n) (r ∷ rs) = nth n rs

-- The reference of a row, by its number; row 0 is the header.
pub row_at : ℕ → List RowRef → Option RowRef
unfolding nth
row_at zero rs = none
row_at (suc n) rs = nth n rs

pub suc_option : Option ℕ → Option ℕ
suc_option none = none
suc_option (some n) = some (suc n)

-- How many rows stand before the first that passes a test.
pub position : (RowRef → Bool) → List RowRef → Option ℕ
unfolding suc_option
position p [] = none
position p (r ∷ rs) = let later = suc_option (position p rs) in if p r then some 0 else later

abbrev pub for_kind : {A : Type 0} → RowKind → A → A → A
for_kind row_port port account = port
for_kind row_account port account = account

unfoldable pub is_port : ℕ → RowRef → Bool
is_port id r = for_kind r.kind (r.port_id == id) false

pub is_account : ℕ → RowRef → Bool
is_account id r = for_kind r.kind false (r.account_id == id)

pub row_for_port : ℕ → List RowRef → Option ℕ
unfolding position is_port suc_option
row_for_port id rows = suc_option (position (is_port id) rows)

pub row_for_account : ℕ → List RowRef → Option ℕ
unfolding position is_account suc_option
row_for_account id rows = suc_option (position (is_account id) rows)

-- The lowest of the numbers of the rows, which start at 1.
pub first_selectable_row : List RowRef → ℕ
first_selectable_row rows = 1

pub entity : RowRef → Selected
entity r = record { kind = r.kind; account_id = r.account_id; port_id = r.port_id }

pub on_selection_changed : ℕ → Ui → Ui
unfolding row_at entity
on_selection_changed row u = elim (row_at row u.rows) [
  | some r ↦ record { rows = u.rows; cursor = u.cursor; selection = some (entity r) }
  | none ↦ u
]

-- The table's Select.
pub select : ℕ → Ui → Ui
unfolding on_selection_changed
select row u =
    on_selection_changed row (record { rows = u.rows; cursor = row; selection = u.selection })

pub or_row : Option ℕ → ℕ → ℕ
or_row none n = n
or_row (some row) n = row

pub restored_row : Option Selected → List RowRef → ℕ
unfolding row_for_port row_for_account first_selectable_row or_row
restored_row none rows = first_selectable_row rows
restored_row (some s) rows =
    let by_account = or_row (row_for_account s.account_id rows) (first_selectable_row rows) in
    for_kind s.kind (or_row (row_for_port s.port_id rows) by_account) by_account

pub restore_selection : Ui → Ui
unfolding select restored_row
restore_selection u = elim u.rows [ [] ↦ u | r ∷ rs ↦ select (restored_row u.selection u.rows) u ]

-- What render does to the rows and the selection.
unfoldable pub render : List AccountView → Ui → Ui
unfolding restore_selection
render views u =
    restore_selection
      (record { rows = table_rows views; cursor = u.cursor; selection = u.selection })

pub selected : Ui → Option RowRef
unfolding row_at
selected u = row_at u.cursor u.rows

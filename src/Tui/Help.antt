-- ===== src/Tui/Help.antt =====
-- internal/tui/tui.go: the shortcut bar, whose items run what their keys run.
use nfuse.Base.{
  Option, none, some, ℕ, suc, ◌+◌, ◌-◌, ◌/◌, ◌≡◌, ◌≢◌, ◌↔◌, Bool, true, false, List, [], ◌∷◌, any,
  length, leb, ltb, ◌==◌, if◌then◌else◌, arith,
}
use nfuse.Base.Text.{Text, codes}
use nfuse.Base.Float64.{Float64}
use nfuse.Model.Expiry.{Location}
use nfuse.Rpc.Client.Calls.{OpClient}
use nfuse.Tui.{Ui, selected, RowRef, RowKind, row_port, row_account, for_kind}
use nfuse.Tui.Dialogs.{Handled, unhandled, dispatch_key, delete_key, move_key, with_views}

pub record HelpItem : Type 0 where
  pub key : ℕ
  pub label : Text

unfoldable pub item : ℕ → Text → HelpItem
item key label = record { key = key; label = label }

unfoldable pub help_items : List HelpItem
unfolding item
help_items =
    item b'a' (codes "add acct")
    ∷ item b'd' (codes "del acct(+ports)")
    ∷ item b'p' (codes "add port")
    ∷ item b'e' (codes "edit port")
    ∷ item b'x' (codes "del port")
    ∷ item b'm' (codes "move port")
    ∷ item b't' (codes "tier")
    ∷ item b'r' (codes "reset")
    ∷ item b'u' (codes "set usage")
    ∷ item b'v' (codes "expiry")
    ∷ item b'q' (codes "quit")
    ∷ []

-- The items behind the first come with two spaces.
items_width : Bool → List HelpItem → ℕ
items_width first [] = 0
items_width first (it ∷ items) =
    (if first then 0 else 2) + (1 + 1 + length it.label) + items_width false items

-- helpVisibleWidth.
pub help_visible_width : ℕ
unfolding items_width help_items
help_visible_width = items_width true help_items

-- helpHeight, with the two rows and columns of the border.
pub help_height : ℕ → ℕ
unfolding help_visible_width
help_height total =
    let inner = total - 2 in
    let rows = (help_visible_width + inner - 1) / inner in
    if leb total 2 then 3 else (if ltb rows 1 then 1 else rows) + 2

inner : (q : ℕ) → suc q + 2 - 3 ≡ q
inner q = omega arith

for_kind_handled :
    {W : Type 0} (k : RowKind) (a b : Handled × W)
    → a.0 ≢ unhandled
    → b.0 ≢ unhandled
    → (for_kind k a b).0 ≢ unhandled
for_kind_handled row_port a b x y = x
for_kind_handled row_account a b x y = y

module _ {W : Type 0} (client : OpClient W) (loc : Location) (convert : Float64 → ℕ) where
  delete_key_handled :
      (r : Option RowRef) (w : W) → (delete_key client loc convert r w).0 ≢ unhandled
  unfolding delete_key with_views
  delete_key_handled none w = λ h. cc
  delete_key_handled (some r) w = for_kind_handled r.kind _ _ (λ h. cc) (λ h. cc)

  move_key_handled : (r : Option RowRef) (w : W) → (move_key client loc convert r w).0 ≢ unhandled
  unfolding move_key with_views
  move_key_handled none w = λ h. cc
  move_key_handled (some r) w = for_kind_handled r.kind _ _ (λ h. cc) (λ h. cc)

  -- The bar shows exactly the keys that dispatch handles.
  pub dispatch_key-help_items :
      (key : ℕ) (u : Ui) (w : W)
      → ((dispatch_key client loc convert key u w).0 ≢ unhandled)
        ↔ (any (λ (it : HelpItem). it.key == key) help_items ≡ true)
  unfolding dispatch_key help_items item
  dispatch_key-help_items key u w =
      let deletes = delete_key_handled (selected u) w in
      let moves = move_key_handled (selected u) w in ground (arith, deletes, moves)

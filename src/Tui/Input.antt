-- ===== src/Tui/Input.antt =====
-- internal/tui/tui.go: keys, clicks on the shortcut bar, and the mouse over a dialog.
use nfuse.Base.{
  Option, none, some, ℕ, ◌≡◌, ◌≢◌, refl, Bool, true, false, Bool-cases, inl, inr, List, [], ◌∷◌,
  any, ◌==◌, if◌then◌else◌, arith, ◌++◌,
}
use nfuse.Base.Text.{Text, codes}
use nfuse.Base.Float64.{Float64}
use nfuse.Model.Expiry.{Location}
use nfuse.Rpc.Client.Calls.{OpClient}
use nfuse.Tui.{Ui}
use nfuse.Tui.Dialogs.{Handled, unhandled, stopped, opened, dispatch_key}
use nfuse.Tui.Help.{HelpItem, item, help_items, dispatch_key-help_items}

-- A key event of the terminal.
pub record KeyEvent : Type 0 where
  pub is_ctrl_c : Bool
  pub rune : ℕ

-- The id of an item's region.
region : HelpItem → Text
region it = it.key ∷ []

-- helpMarkup, from the items that are left.
markup : Bool → List HelpItem → Text
unfolding region
markup first [] = []
markup first (it ∷ items) =
    (if first then [] else codes "  ")
    ++ codes "[\""
    ++ region it
    ++ codes "\"][yellow]"
    ++ it.key ∷ codes "[-] "
    ++ it.label
    ++ codes "[\"\"]"
    ++ markup false items

unfoldable help_markup : Text
unfolding markup
help_markup = markup true help_items

-- A mouse event over a dialog: what the dialog's own handler, if it has one, does not consume, is
-- consumed and does nothing.
mouse_handler :
    {E A W : Type 0} → Option (E → W → (Bool × Option A) × W) → E → W → (Bool × Option A) × W
mouse_handler none event w = ((true, none), w)
mouse_handler (some inner) event w = backstop (inner event w)
  where
    backstop : {A W : Type 0} → (Bool × Option A) × W → (Bool × Option A) × W
    backstop ((true, capture), w) = ((true, capture), w)
    backstop ((false, capture), w) = ((true, none), w)

passed_on : {W : Type 0} → KeyEvent → Handled × W → Option KeyEvent × Handled × W
passed_on event (unhandled, w) = (some event, unhandled, w)
passed_on event (stopped, w) = (none, stopped, w)
passed_on event (opened d, w) = (none, opened d, w)

module _ {W : Type 0} (client : OpClient W) (loc : Location) (convert : Float64 → ℕ) where
  -- onKey: the event, if the table is to have it.
  pub on_key : KeyEvent → Ui → W → Option KeyEvent × Handled × W
  unfolding passed_on
  on_key event u w =
      if event.is_ctrl_c
      then (none, stopped, w)
      else passed_on event (dispatch_key client loc convert event.rune u w)

  -- The regions of the bar that are newly highlighted: a click highlights one.
  pub highlighted : List Text → Ui → W → Handled × W
  highlighted [] u w = (unhandled, w)
  highlighted ((key ∷ []) ∷ added) u w = dispatch_key client loc convert key u w
  highlighted ([] ∷ added) u w = (unhandled, w)
  highlighted ((key ∷ next ∷ rest) ∷ added) u w = (unhandled, w)

  passed_on-none :
      (event : KeyEvent) (r : Handled × W) → r.0 ≢ unhandled → passed_on event r ≡ (none, r.0, r.1)
  unfolding passed_on
  passed_on-none event (unhandled, w) h = absurd (h refl)
  passed_on-none event (stopped, w) h = refl
  passed_on-none event (opened d, w) h = refl

  no_item :
      (key : ℕ) (u : Ui) (w : W)
      → any (λ (it : HelpItem). it.key == key) help_items ≡ false
      → dispatch_key client loc convert key u w ≡ (unhandled, w)
  unfolding dispatch_key help_items item
  no_item key u w h = ground (arith, h)

  -- A key, other than Ctrl-C, that an item on the bar has does what a click on the item does, and the table
  -- does not get it; one that no item has goes on to the table and does nothing else.
  pub on_key-highlighted :
      (key : ℕ) (u : Ui) (w : W)
      → let event : KeyEvent = record { is_ctrl_c = false; rune = key } in
        on_key event u w ≡ (
          if any (λ (it : HelpItem). it.key == key) help_items
          then (none, (highlighted ((key ∷ []) ∷ []) u w).0, (highlighted ((key ∷ []) ∷ []) u w).1)
          else (some event, unhandled, w))
  unfolding on_key highlighted passed_on
  on_key-highlighted key u w =
      elim (Bool-cases (any (λ (it : HelpItem). it.key == key) help_items)) [
        | inl there ↦
            rw there
              (passed_on-none _ _ ((dispatch_key-help_items client loc convert key u w).1 there))
        | inr absent ↦ rw (absent, no_item key u w absent) refl
      ]

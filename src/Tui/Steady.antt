-- ===== src/Tui/Steady.antt =====
-- A refresh of the table between a selection and the key that acts on it.
use nfuse.Base.{
  ℕ, ◌≡◌, refl, sym, ap, ◌∙◌, Bool, true, false, Bool-cases, inl, inr, Option, none, some, List, [],
  ◌∷◌, ◌==◌, arith, find,
}
use nfuse.Base.Float64.{Float64}
use nfuse.Model.Expiry.{Location}
use nfuse.Engine.Views.{AccountView}
use nfuse.Rpc.Client.Calls.{OpClient}
use nfuse.Tui.{
  RowKind, row_account, row_port, RowRef, Ui, table_rows, is_port, render, selected, for_kind,
}
use nfuse.Tui.Selection.{meant, render-Shows}
use nfuse.Tui.Dialogs.{opened, delete_port_prompt, dispatch_key, port_row_only, Dialog}

abbrev got : (RowRef → Bool) → Option RowRef → Bool
got p none = false
got p (some r) = p r

first_passes :
    (p : RowRef → Bool) (x r : RowRef)
    → p x ≡ true
    → ◌≡◌ {A = Option RowRef} (some x) (some r)
    → p r ≡ true
first_passes p x r hit same = ap (got p) (sym same) ∙ hit

find_passes : (p : RowRef → Bool) (rs : List RowRef) (r : RowRef) → find p rs ≡ some r → p r ≡ true
find_passes p [] r h = cc
find_passes p (x ∷ xs) r h = elim (Bool-cases (p x)) [
  | inl hit ↦ first_passes p x r hit (rw hit at h)
  | inr miss ↦ find_passes p xs r (rw miss at h)
]

opens_for_kind :
    (kind : RowKind) (port_id id : ℕ) (refused : Dialog)
    → for_kind kind (port_id == id) false ≡ true
    → for_kind kind (delete_port_prompt port_id) refused ≡ delete_port_prompt id
opens_for_kind row_port port_id id refused h = ap delete_port_prompt (ground (arith, h))
opens_for_kind row_account port_id id refused h = cc

opens_prompt :
    (r : RowRef) (id : ℕ) (found : Option RowRef)
    → found ≡ some r
    → is_port id r ≡ true
    → port_row_only found (λ x. delete_port_prompt x.port_id) ≡ delete_port_prompt id
unfolding port_row_only is_port
opens_prompt r id found h k = rw h (opens_for_kind r.kind r.port_id id _ k)

-- If the port that was selected is still in the table after a refresh, the key to delete a port opens the
-- prompt for that very port, whatever rows have come, gone or moved.
pub refresh_keeps_target :
    {W : Type 0} (client : OpClient W) (loc : Location) (convert : Float64 → ℕ)
    (views : List AccountView) (u : Ui) (account_id id : ℕ) (r : RowRef) (w : W)
    → u.selection ≡ some (record { kind = row_port; account_id = account_id; port_id = id })
    → find (is_port id) (table_rows views) ≡ some r
    → dispatch_key client loc convert b'x' (render views u) w ≡ (opened (delete_port_prompt id), w)
unfolding dispatch_key meant
refresh_keeps_target client loc convert views u account_id id r w chosen there =
    ap (λ d. (opened d, w))
      (opens_prompt r id (selected (render views u)) shown
        (find_passes (is_port id) (table_rows views) r there))
  where
    shown : selected (render views u) ≡ some r
    shown = (render-Shows views u).0 ∙ ap (λ s. meant s (table_rows views)) chosen ∙ rw there refl

-- ===== src/Tui/Selection.antt =====
-- The selection of the table over a render.
use nfuse.Base.{
  ℕ, zero, suc, ◌≡◌, refl, ap, ap₂, ◌∙◌, Bool, Bool-cases, inl, inr, Option-cases, Option, none,
  some, List, [], ◌∷◌, find,
}
use mathlib.Core.Path.{subst}
use nfuse.Engine.Views.{AccountView}
use nfuse.Tui.{
  RowKind, row_account, row_port, RowRef, Selected, Ui, table_rows, row_at, nth, position,
  suc_option, is_port, is_account, row_for_port, row_for_account, first_selectable_row, entity,
  on_selection_changed, select, or_row, for_kind, restored_row, restore_selection, render, selected,
}

abbrev or_else : Option RowRef → Option RowRef → Option RowRef
or_else none later = later
or_else (some r) later = some r

abbrev first : List RowRef → Option RowRef
first [] = none
first (r ∷ rs) = some r

-- The row that a selection means, by what stands in it: the entity itself, or the account of a port that
-- is gone, or the first row.
unfoldable pub meant : Option Selected → List RowRef → Option RowRef
meant none rows = first rows
meant (some s) rows =
    let by_account = or_else (find (is_account s.account_id) rows) (first rows) in
    for_kind s.kind (or_else (find (is_port s.port_id) rows) by_account) by_account

data IsPlaced (p : RowRef → Bool) (rs : List RowRef) : Type 0 where
  absent : position p rs ≡ none → find p rs ≡ none → IsPlaced p rs
  present :
      (k : ℕ) (r : RowRef)
      → position p rs ≡ some k
      → find p rs ≡ some r
      → nth k rs ≡ some r
      → IsPlaced p rs

position-IsPlaced : (p : RowRef → Bool) (rs : List RowRef) → IsPlaced p rs
unfolding position suc_option nth
position-IsPlaced p [] = absent refl refl
position-IsPlaced p (r ∷ rs) = elim (Bool-cases (p r)) [
  | inl hit ↦ present 0 r (rw hit refl) (rw hit refl) refl
  | inr miss ↦ elim (position-IsPlaced p rs) [
    | absent a b ↦ absent (rw (miss, a) refl) (rw (miss, b) refl)
    | present k r' a b c ↦ present (suc k) r' (rw (miss, a) refl) (rw (miss, b) refl) c
  ]
]

-- Going to a row by its position is finding what stands in it.
row_at-or_row :
    (p : RowRef → Bool) (rs : List RowRef) (n : ℕ)
    → row_at (or_row (suc_option (position p rs)) n) rs ≡ or_else (find p rs) (row_at n rs)
unfolding row_at or_row suc_option
row_at-or_row p rs n = elim (position-IsPlaced p rs) [
  | absent a b ↦ rw (a, b) refl
  | present k r a b c ↦ rw (a, b) c
]

row_at-first : (rs : List RowRef) → row_at (first_selectable_row rs) rs ≡ first rs
unfolding row_at nth first_selectable_row
row_at-first [] = refl
row_at-first (r ∷ rs) = refl

row_at-for_kind :
    (kind : RowKind) (port account : ℕ) (rs : List RowRef)
    → row_at (for_kind kind port account) rs ≡ for_kind kind (row_at port rs) (row_at account rs)
row_at-for_kind row_port port account rs = refl
row_at-for_kind row_account port account rs = refl

row_at-restored_row :
    (s : Option Selected) (rs : List RowRef) → row_at (restored_row s rs) rs ≡ meant s rs
unfolding restored_row row_for_port row_for_account meant
row_at-restored_row none rs = row_at-first rs
row_at-restored_row (some s) rs =
    row_at-for_kind s.kind _ _ rs
    ∙ ap₂ (for_kind s.kind) (row_at-or_row (is_port s.port_id) rs _ ∙ ap (or_else _) by_account)
        by_account
  where
    by_account :
        row_at
          (or_row (suc_option (position (is_account s.account_id) rs)) (first_selectable_row rs))
          rs
        ≡ or_else (find (is_account s.account_id) rs) (first rs)
    by_account = row_at-or_row (is_account s.account_id) rs _ ∙ ap (or_else _) (row_at-first rs)

-- What is remembered once the row of `r` is selected.
pub remembered : Option RowRef → Option Selected → Option Selected
unfolding entity
remembered none s = s
remembered (some r) s = some (entity r)

Shows : Option RowRef → Option Selected → Ui → Type 0
Shows r before u = (selected u ≡ r) × (u.selection ≡ remembered r before)

select-Shows : (row : ℕ) (u : Ui) → Shows (row_at row u.rows) u.selection (select row u)
unfolding Shows select on_selection_changed selected remembered
select-Shows row u = elim (Option-cases (row_at row u.rows)) [
  | inl gone ↦ rw (on_selection_changed, gone) (gone, refl)
  | inr (r, is) ↦ rw (on_selection_changed, is) (is, refl)
]

meant-none : (s : Option Selected) → meant s [] ≡ none
unfolding meant
meant-none none = refl
meant-none (some s) = elim s.kind as (λ k. for_kind {A = Option RowRef} k none none ≡ none) [
  | row_port ↦ refl
  | row_account ↦ refl
]

row_at-nil : (n : ℕ) → row_at n [] ≡ none
unfolding row_at nth
row_at-nil zero = refl
row_at-nil (suc n) = refl

nothing-Shows :
    (cursor : ℕ) (s : Option Selected)
    → Shows (meant s []) s (record { rows = []; cursor = cursor; selection = s })
unfolding Shows selected remembered
nothing-Shows cursor s = rw (meant-none s) (row_at-nil cursor, refl)

restore_selection-Shows :
    (rows : List RowRef) (cursor : ℕ) (s : Option Selected)
    → Shows
        (meant s rows)
        s
        (restore_selection (record { rows = rows; cursor = cursor; selection = s }))
unfolding restore_selection
restore_selection-Shows [] cursor s = nothing-Shows cursor s
restore_selection-Shows (r ∷ rs) cursor s =
    subst
      (λ x. Shows x s (
        select (restored_row s (r ∷ rs))
          (record { rows = r ∷ rs; cursor = cursor; selection = s })))
      (row_at-restored_row s (r ∷ rs))
      (select-Shows (restored_row s (r ∷ rs))
        (record { rows = r ∷ rs; cursor = cursor; selection = s }))

-- A render of any list of accounts leaves selected what the remembered selection means in it, wherever
-- its row has moved: the same port or account, or the account of a port that is gone, or the first row;
-- and it remembers that entity for the next render.
pub render-Shows :
    (views : List AccountView) (u : Ui)
    → (selected (render views u) ≡ meant u.selection (table_rows views))
      × ((render views u).selection ≡ remembered (meant u.selection (table_rows views)) u.selection)
unfolding render Shows
render-Shows views u = restore_selection-Shows (table_rows views) u.cursor u.selection

-- ===== src/Store/Migrate/Reopening.antt =====
-- After a migration of internal/store/store.go that ends without an error, nothing is left to migrate.
use nfuse.Base.{
  ◌≡◌, refl, sym, ap, ap₂, ◌∙◌, Bool, true, false, Bool-cases, inl, inr, none, List, [], ◌∷◌, map,
  is_empty, ◌==◌, All, if◌then◌else◌,
}
use nfuse.Base.Text.{text_eq}
use nfuse.Model.{Account, Port}
use nfuse.Model.Token.{Reads}
use nfuse.Store.{Db}
use nfuse.Store.Migrate.{
  File, Faults, Migrated, create_schema, add_end, add_expiry, add_token, fill_end, stored_master,
  on_tables, migrate, without_token,
}
use nfuse.Store.Migrate.Tokens.{Differ, HasToken, Apart}
use nfuse.Store.Migrate.Filled.{fill_tokens-HasTokens}
use nfuse.Store.Migrate.Keeping.{fill_tokens-Same}
use nfuse.Store.Migrate.Ending.{column, upgraded, migrate_done}
use nfuse.Store.Migrate.Current.{ending, IsCurrent}
use nfuse.Store.Migrate.Upgrading.{ports-column_token, ports-column_expiry}
use mathlib.Core.Path.{subst}

port_twice :
    (b : Bool) (p : Port)
    → (if b then record p { end = p.start } else record p { end = p.start })
      ≡ record p { end = p.start }
port_twice true p = refl
port_twice false p = refl

abbrev single : Port → Port
single p = if p.end == 0 then record p { end = p.start } else p

single_twice : (p : Port) → single (single p) ≡ single p
single_twice p = elim (Bool-cases (p.end == 0)) [
  | inl unset ↦ rw unset (port_twice (p.start == 0) p)
  | inr set ↦ rw (set, set) refl
]

ending_twice : (ports : List Port) → ending (ending ports) ≡ ending ports
ending_twice [] = refl
ending_twice (p ∷ ports) = ap₂ (λ x xs. x ∷ xs) (single_twice p) (ending_twice ports)

without_token_none :
    (m : _) (accounts : List Account) → All (HasToken m) accounts → without_token accounts ≡ []
without_token_none m [] h = refl
without_token_none m (a ∷ accounts) h = rw h.0.0 (without_token_none m accounts h.1)

All-map :
    {A B : Type 0} (P : A → Type 0) (Q : B → Type 0) (g : A → B) (xs : List A)
    → ((x : A) → P x → Q (g x))
    → All P xs
    → All Q (map g xs)
All-map P Q g [] step h = tt
All-map P Q g (x ∷ xs) step h = (step x h.0, All-map P Q g xs step h.1)

Apart-map :
    (g : Account → Account) (accounts : List Account)
    → ((a b : Account) → Differ a b → Differ (g a) (g b))
    → Apart accounts
    → Apart (map g accounts)
Apart-map g [] step h = tt
Apart-map g (a ∷ rest) step h =
    (All-map (Differ a) (Differ (g a)) g rest (step a) h.0, Apart-map g rest step h.1)

-- No two accounts share an id or a token that is not empty, and none has the master token.
pub record IsDistinct (db : Db) : Type 0 where
  pub apart : Apart db.accounts
  pub others :
      All
        (λ (a : Account). text_eq a.token (stored_master db) ≡ true → is_empty a.token ≡ true)
        db.accounts

add_end-IsDistinct :
    (b : Bool) (f : File) → IsDistinct f.tables → IsDistinct (fill_end (column b add_end f)).tables
unfolding fill_end column add_end stored_master
add_end-IsDistinct true f d = record { apart = d.apart; others = d.others }
add_end-IsDistinct false f d = record { apart = d.apart; others = d.others }

add_expiry-IsDistinct :
    (b : Bool) (f : File) → IsDistinct f.tables → IsDistinct (column b add_expiry f).tables
unfolding column add_expiry stored_master
add_expiry-IsDistinct true f d = d
add_expiry-IsDistinct false f d = record {
  apart = Apart-map _ f.tables.accounts (λ a b h. h) d.apart;
  others = All-map _ _ _ f.tables.accounts (λ a h. h) d.others;
}

add_token-IsDistinct :
    (b : Bool) (f : File) → IsDistinct f.tables → IsDistinct (column b add_token f).tables
unfolding column add_token stored_master
add_token-IsDistinct true f d = d
add_token-IsDistinct false f d = record {
  apart = Apart-map _ f.tables.accounts (λ a b h. (refl, h.1)) d.apart;
  others = All-map _ _ _ f.tables.accounts (λ a h k. refl) d.others;
}

upgraded-IsDistinct : (f : File) → IsDistinct f.tables → IsDistinct (upgraded f).tables
unfolding upgraded create_schema
upgraded-IsDistinct f d =
    let g = create_schema f in
    let h = fill_end (column g.has_end add_end g) in
    let k = column h.has_expiry add_expiry h in
    add_token-IsDistinct k.has_token k (
      add_expiry-IsDistinct h.has_expiry h
        (add_end-IsDistinct g.has_end g (record { apart = d.apart; others = d.others })))

end_flags :
    (b : Bool) (f : File)
    → b ≡ f.has_end
    → f.accounts_there ≡ true
    → f.ports_there ≡ true
    → let g = fill_end (column b add_end f) in
      (g.accounts_there ≡ true) × (g.ports_there ≡ true) × (g.has_end ≡ true)
unfolding fill_end column add_end
end_flags true f e a p = (a, p, sym e)
end_flags false f e a p = (a, p, refl)

expiry_flags :
    (b : Bool) (f : File)
    → b ≡ f.has_expiry
    → (f.accounts_there ≡ true) × (f.ports_there ≡ true) × (f.has_end ≡ true)
    → let g = column b add_expiry f in
      ((g.accounts_there ≡ true) × (g.ports_there ≡ true) × (g.has_end ≡ true))
      × (g.has_expiry ≡ true)
unfolding column add_expiry
expiry_flags true f e h = (h, sym e)
expiry_flags false f e h = (h, refl)

token_flags :
    (b : Bool) (f : File)
    → b ≡ f.has_token
    → ((f.accounts_there ≡ true) × (f.ports_there ≡ true) × (f.has_end ≡ true))
      × (f.has_expiry ≡ true)
    → let g = column b add_token f in
      (((g.accounts_there ≡ true) × (g.ports_there ≡ true) × (g.has_end ≡ true))
        × (g.has_expiry ≡ true))
      × (g.has_token ≡ true)
unfolding column add_token
token_flags true f e h = (h, sym e)
token_flags false f e h = (h, refl)

upgraded_flags :
    (f : File)
    → let g = upgraded f in
      (((g.accounts_there ≡ true) × (g.ports_there ≡ true) × (g.has_end ≡ true))
        × (g.has_expiry ≡ true))
      × (g.has_token ≡ true)
unfolding upgraded create_schema
upgraded_flags f =
    let g = create_schema f in
    let h = fill_end (column g.has_end add_end g) in
    let k = column h.has_expiry add_expiry h in
    token_flags k.has_token k refl
      (expiry_flags h.has_expiry h refl (end_flags g.has_end g refl refl refl))

upgraded_ended : (f : File) → ending (upgraded f).tables.ports ≡ (upgraded f).tables.ports
unfolding upgraded fill_end
upgraded_ended f =
    let g = create_schema f in
    let c = column g.has_end add_end g in
    let h = fill_end c in
    let k = column h.has_expiry add_expiry h in
    let filled : (upgraded f).tables.ports ≡ ending c.tables.ports =
      ports-column_token k.has_token k ∙ ports-column_expiry h.has_expiry h in
    ap ending filled ∙ ending_twice c.tables.ports ∙ sym filled

module _ (faults : Faults) (reads : Reads) (f : File) where
  pub migrated-IsCurrent :
      IsDistinct f.tables → (migrate faults reads f).0 ≡ none → IsCurrent (migrate faults reads f).1
  unfolding on_tables stored_master
  migrated-IsCurrent d h =
      let done = migrate_done faults reads f h in
      let db = (upgraded f).tables in
      let same = fill_tokens-Same faults reads db in
      let has =
        fill_tokens-HasTokens faults reads db (upgraded-IsDistinct f d).apart
          (upgraded-IsDistinct f d).others (ap (λ r. r.0) (sym done) ∙ h) in
      let (((there, listed, ranged), expiring), tokened) = upgraded_flags f in
      subst (λ (r : Migrated). IsCurrent r.1) (sym done)
        (record {
          accounts = there;
          ports = listed;
          token = tokened;
          expiry = expiring;
          end = ranged;
          ended = ap ending same.ports ∙ upgraded_ended f ∙ sym same.ports;
          master = has.master;
          tokens = without_token_none _ _ has.tokens;
        })

-- ===== src/Store/Migrate/Current.antt =====
-- A database in which the migrations of internal/store/store.go find nothing to do.
use nfuse.Base.{
  ◌≡◌, refl, sym, ap, Bool, true, false, Option-cases, inl, inr, none, some, List, [], is_empty,
  ◌==◌, update_where, if◌then◌else◌,
}
use nfuse.Model.{Port}
use nfuse.Model.Token.{Reads}
use nfuse.Store.{Fault}
use nfuse.Store.Migrate.{
  File, Faults, Statement, Migrated, guarded, and_then, create_schema, add_end, add_expiry,
  add_token, ensure_column, fill_end, migrate_port_range, migrate_expiry, with_tables, schema,
  end_info, end_alter, end_update, expiry_info, expiry_alter, token_info, token_alter, used_tokens,
  read_master, empty_tokens, fill_tokens, ensure_master, backfill_rest, backfill, stored_master,
  on_tables, ensure_tokens, migrate, without_token,
}

abbrev pub ending : List Port → List Port
ending = update_where (λ (p : Port). p.end == 0) (λ p. record p { end = p.start })

-- Nothing is left to migrate.
pub record IsCurrent (f : File) : Type 0 where
  pub accounts : f.accounts_there ≡ true
  pub ports : f.ports_there ≡ true
  pub token : f.has_token ≡ true
  pub expiry : f.has_expiry ≡ true
  pub end : f.has_end ≡ true
  pub ended : ending f.tables.ports ≡ f.tables.ports
  pub master : is_empty (stored_master f.tables) ≡ false
  pub tokens : without_token f.tables.accounts ≡ []

same_flags :
    (f : File) (a p t e n : Bool)
    → a ≡ f.accounts_there
    → p ≡ f.ports_there
    → t ≡ f.has_token
    → e ≡ f.has_expiry
    → n ≡ f.has_end
    → ◌≡◌ {A = File}
        (record f {
          accounts_there = a;
          ports_there = p;
          has_token = t;
          has_expiry = e;
          has_end = n;
        })
        f
same_flags f a p t e n ha hp ht he hn = rw (ha, hp, ht, he, hn) refl

kept_flag : (there has : Bool) → there ≡ true → (if there then has else true) ≡ has
kept_flag there has h = rw h refl

create_schema_lem : (f : File) → IsCurrent f → create_schema f ≡ f
unfolding create_schema
create_schema_lem f c =
    same_flags f true true _ _ _ (sym c.accounts) (sym c.ports)
      (kept_flag f.accounts_there f.has_token c.accounts)
      (kept_flag f.accounts_there f.has_expiry c.accounts)
      (kept_flag f.ports_there f.has_end c.ports)

fill_end_lem : (f : File) → IsCurrent f → fill_end f ≡ f
unfolding fill_end
fill_end_lem f c = ap (λ ps. record f { tables = record f.tables { ports = ps } }) c.ended

module _ (faults : Faults) where
  -- A step that leaves x, and fails only with a statement.
  abbrev pub Leaves : {A : Type 0} → A → Fault × A → Type 0
  Leaves x r = (r.1 ≡ x) × (((s : Statement) → faults s ≡ none) → r.0 ≡ none)

  guarded-Leaves : (s : Statement) (f g : File) → g ≡ f → Leaves f (guarded (faults s) f g)
  guarded-Leaves s f g e = elim (Option-cases (faults s)) [
    | inl fine ↦ rw fine (e, λ h. refl)
    | inr (x, bad) ↦ rw bad (refl, λ h. (let fine = h s in cc))
  ]

  and_then-Leaves :
      (r : Migrated) (next : File → Migrated) (f : File)
      → Leaves f r
      → Leaves f (next f)
      → Leaves f (and_then r next)
  and_then-Leaves (some e, g) next f l n = (l.0, λ h. (let fine = l.1 h in cc))
  and_then-Leaves (none, g) next f l n = rw l.0 n

  ensure_column-Leaves :
      (info alter : Statement) (has : Bool) (add : File → File) (f : File)
      → has ≡ true
      → Leaves f (ensure_column (faults info) (faults alter) has add f)
  unfolding ensure_column
  ensure_column-Leaves info alter has add f e =
      and_then-Leaves (guarded (faults info) f f) _ f (guarded-Leaves info f f refl)
        (rw e (refl, λ h. refl))

  fill_tokens-Leaves :
      (reads : Reads) (f : File) → IsCurrent f → Leaves f.tables (fill_tokens faults reads f.tables)
  unfolding fill_tokens ensure_master backfill_rest backfill
  fill_tokens-Leaves reads f c = elim (Option-cases (faults used_tokens)) [
    | inr (x, bad) ↦ rw (fill_tokens, bad) (refl, λ h. (let fine = h used_tokens in cc))
    | inl fine ↦ elim (Option-cases (faults read_master)) [
      | inr (x, bad) ↦
          rw (fill_tokens, fine, ensure_master, bad) (refl, λ h. (let fine = h read_master in cc))
      | inl read ↦ elim (Option-cases (faults empty_tokens)) [
        | inr (x, bad) ↦
            rw (fill_tokens, fine, ensure_master, read, c.master, backfill_rest, bad)
              (refl, λ h. (let fine = h empty_tokens in cc))
        | inl listed ↦
            rw (fill_tokens, fine, ensure_master, read, c.master, backfill_rest, listed, c.tokens)
              (refl, λ h. refl)
      ]
    ]
  ]

  pub migrate-Leaves : (reads : Reads) (f : File) → IsCurrent f → Leaves f (migrate faults reads f)
  unfolding migrate migrate_port_range migrate_expiry ensure_tokens on_tables
  migrate-Leaves reads f c =
      let filled = fill_tokens-Leaves reads f c in
      and_then-Leaves _ (ensure_tokens faults reads) f
        (and_then-Leaves _ (migrate_expiry faults) f
          (and_then-Leaves (guarded (faults schema) f (create_schema f)) (migrate_port_range faults)
            f (guarded-Leaves schema f (create_schema f) (create_schema_lem f c))
            (and_then-Leaves
              (ensure_column (faults end_info) (faults end_alter) f.has_end add_end f) _ f
              (ensure_column-Leaves end_info end_alter f.has_end add_end f c.end)
              (guarded-Leaves end_update f (fill_end f) (fill_end_lem f c))))
          (ensure_column-Leaves expiry_info expiry_alter f.has_expiry add_expiry f c.expiry))
        (and_then-Leaves
          (ensure_column (faults token_info) (faults token_alter) f.has_token add_token f) _ f
          (ensure_column-Leaves token_info token_alter f.has_token add_token f c.token)
          (ap (λ db. with_tables f db) filled.0, filled.1))

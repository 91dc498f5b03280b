-- ===== src/Store/Migrate/Ending.antt =====
-- What a migration of internal/store/store.go that ends without an error has done.
use nfuse.Base.{◌≡◌, refl, sym, ap, ◌∙◌, Bool, true, false, none, some, if◌then◌else◌}
use nfuse.Model.Token.{Reads}
use nfuse.Store.{Fault}
use nfuse.Store.Migrate.{
  File, Faults, Migrated, guarded, and_then, create_schema, add_end, add_expiry, add_token,
  ensure_column, fill_end, migrate_port_range, migrate_expiry, schema, end_info, end_alter,
  end_update, fill_tokens, on_tables, ensure_tokens, migrate,
}

unfoldable pub column : Bool → (File → File) → File → File
column has add f = if has then f else add f

and_then_done :
    (r : Migrated) (next : File → Migrated)
    → (and_then r next).0 ≡ none
    → (r.0 ≡ none) × (and_then r next ≡ next r.1)
and_then_done (some e, f) next h = cc
and_then_done (none, f) next h = (refl, refl)

guarded_done :
    (fault : Fault) (before after : File)
    → (guarded fault before after).0 ≡ none
    → (guarded fault before after).1 ≡ after
guarded_done (some e) before after h = cc
guarded_done none before after h = refl

ensure_column_done :
    (info alter : Fault) (has : Bool) (add : File → File) (f : File)
    → (ensure_column info alter has add f).0 ≡ none
    → (ensure_column info alter has add f).1 ≡ column has add f
unfolding ensure_column column
ensure_column_done (some e) alter has add f h = cc
ensure_column_done none alter true add f h = refl
ensure_column_done none alter false add f h = guarded_done alter f (add f) h

module _ (faults : Faults) where
  range_done :
      (f : File)
      → (migrate_port_range faults f).0 ≡ none
      → (migrate_port_range faults f).1 ≡ fill_end (column f.has_end add_end f)
  unfolding migrate_port_range
  range_done f h =
      let added = ensure_column (faults end_info) (faults end_alter) f.has_end add_end f in
      let (first, whole) = and_then_done added _ h in
      ap (λ r. r.1) whole
      ∙ guarded_done (faults end_update) added.1 (fill_end added.1) (ap (λ r. r.0) (sym whole) ∙ h)
      ∙ ap fill_end (ensure_column_done _ _ f.has_end add_end f first)

  tokens_done :
      (reads : Reads) (f : File)
      → (ensure_tokens faults reads f).0 ≡ none
      → ensure_tokens faults reads f
        ≡ on_tables (fill_tokens faults reads) (column f.has_token add_token f)
  unfolding ensure_tokens
  tokens_done reads f h =
      let (first, whole) = and_then_done _ (on_tables (fill_tokens faults reads)) h in
      whole
      ∙ ap (on_tables (fill_tokens faults reads))
          (ensure_column_done _ _ f.has_token add_token f first)

-- The file with every column, before tokens are given.
unfoldable pub upgraded : File → File
unfolding column
upgraded f =
    let g = create_schema f in
    let h = fill_end (column g.has_end add_end g) in
    let k = column h.has_expiry add_expiry h in column k.has_token add_token k

module _ (faults : Faults) (reads : Reads) where
  pub migrate_done :
      (f : File)
      → (migrate faults reads f).0 ≡ none
      → migrate faults reads f ≡ on_tables (fill_tokens faults reads) (upgraded f)
  unfolding migrate upgraded migrate_expiry
  migrate_done f h =
      let created = guarded (faults schema) f (create_schema f) in
      let ranged = and_then created (migrate_port_range faults) in
      let expiring = and_then ranged (migrate_expiry faults) in
      let (e0, e) = and_then_done expiring (ensure_tokens faults reads) h in
      let (d0, d) = and_then_done ranged (migrate_expiry faults) e0 in
      let (c0, c) = and_then_done created (migrate_port_range faults) d0 in
      let at_created = guarded_done (faults schema) f (create_schema f) c0 in
      let at_ranged =
        ap (λ r. r.1) c
        ∙ range_done faults created.1 (ap (λ r. r.0) (sym c) ∙ d0)
        ∙ ap (λ g. fill_end (column g.has_end add_end g)) at_created in
      let at_expiring =
        ap (λ r. r.1) d
        ∙ ensure_column_done _ _ ranged.1.has_expiry add_expiry ranged.1
            (ap (λ r. r.0) (sym d) ∙ e0)
        ∙ ap (λ g. column g.has_expiry add_expiry g) at_ranged in
      e
      ∙ tokens_done faults reads expiring.1 (ap (λ r. r.0) (sym e) ∙ h)
      ∙ ap (λ g. on_tables (fill_tokens faults reads) (column g.has_token add_token g)) at_expiring

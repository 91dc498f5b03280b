-- ===== src/Store/Migrate/Upgrading.antt =====
-- The file that the migrations of internal/store/store.go make of an older one.
use nfuse.Base.{
  ◌≡◌, refl, ap, ap₂, ◌∙◌, Bool, true, false, none, List, [], ◌∷◌, map, ◌==◌, update_where,
  if◌then◌else◌,
}
use nfuse.Base.Int.{pos}
use nfuse.Model.{Account, Port}
use nfuse.Model.Token.{Reads}
use nfuse.Store.Migrate.{
  on_tables, File, Faults, create_schema, add_end, add_expiry, add_token, fill_end, migrate,
}
use nfuse.Store.Migrate.Keeping.{without, fill_tokens-Same}
use nfuse.Store.Migrate.Ending.{column, upgraded, migrate_done}

-- What a port and an account of an older file mean: a port without an end is a single one, an account
-- without an expiry never expires.
pub meant_port : Bool → Port → Port
meant_port has_end p =
    if has_end
    then if p.end == 0 then record p { end = p.start } else p
    else record p { end = p.start }

pub meant_account : Bool → Account → Account
meant_account has_expiry a = if has_expiry then a else record a { expires_unix = pos 0 }

-- A table that is missing has no rows.
pub record IsFile (f : File) : Type 0 where
  pub no_accounts : f.accounts_there ≡ false → f.tables.accounts ≡ []
  pub no_ports : f.ports_there ≡ false → f.tables.ports ≡ []

ended : Bool → List Port → List Port
ended b ports =
    update_where (λ (p : Port). p.end == 0) (λ p. record p { end = p.start })
      (if b then ports else map (λ (p : Port). record p { end = 0 }) ports)

ended_lem : (b : Bool) (ports : List Port) → ended b ports ≡ map (meant_port b) ports
unfolding ended meant_port
ended_lem true [] = refl
ended_lem false [] = refl
ended_lem true (p ∷ ports) = ap (λ ps. meant_port true p ∷ ps) (ended_lem true ports)
ended_lem false (p ∷ ports) = ap (λ ps. meant_port false p ∷ ps) (ended_lem false ports)

ports-column_end :
    (b : Bool) (f : File) → (fill_end (column b add_end f)).tables.ports ≡ ended b f.tables.ports
unfolding fill_end column add_end ended
ports-column_end true f = refl
ports-column_end false f = refl

pub ports-column_expiry :
    (b : Bool) (f : File) → (column b add_expiry f).tables.ports ≡ f.tables.ports
unfolding column add_expiry
ports-column_expiry true f = refl
ports-column_expiry false f = refl

pub ports-column_token :
    (b : Bool) (f : File) → (column b add_token f).tables.ports ≡ f.tables.ports
unfolding column add_token
ports-column_token true f = refl
ports-column_token false f = refl

-- A missing table counts as one with every column.
ended_there :
    (there has : Bool) (ports : List Port)
    → (there ≡ false → ports ≡ [])
    → ended (if there then has else true) ports ≡ map (meant_port has) ports
ended_there true has ports h = ended_lem has ports
ended_there false has ports h = rw (h refl) (ended_lem true [])

upgraded_ports :
    (f : File) → IsFile f → (upgraded f).tables.ports ≡ map (meant_port f.has_end) f.tables.ports
unfolding upgraded create_schema
upgraded_ports f v =
    let g = create_schema f in
    let h = fill_end (column g.has_end add_end g) in
    let k = column h.has_expiry add_expiry h in
    ports-column_token k.has_token k
    ∙ ports-column_expiry h.has_expiry h
    ∙ ports-column_end g.has_end g
    ∙ ended_there f.ports_there f.has_end f.tables.ports v.no_ports

accounts-column_end :
    (b : Bool) (f : File) → (fill_end (column b add_end f)).tables.accounts ≡ f.tables.accounts
unfolding fill_end column add_end
accounts-column_end true f = refl
accounts-column_end false f = refl

expiry-column_end :
    (b : Bool) (f : File) → (fill_end (column b add_end f)).has_expiry ≡ f.has_expiry
unfolding fill_end column add_end
expiry-column_end true f = refl
expiry-column_end false f = refl

meant-kept : (accounts : List Account) → accounts ≡ map (meant_account true) accounts
unfolding meant_account
meant-kept [] = refl
meant-kept (a ∷ accounts) = ap (λ xs. a ∷ xs) (meant-kept accounts)

accounts-column_expiry :
    (b : Bool) (f : File)
    → (column b add_expiry f).tables.accounts ≡ map (meant_account b) f.tables.accounts
unfolding column add_expiry meant_account
accounts-column_expiry true f = meant-kept f.tables.accounts
accounts-column_expiry false f = refl

without-erased :
    (accounts : List Account)
    → map without (map (λ (a : Account). record a { token = [] }) accounts) ≡ map without accounts
unfolding without
without-erased [] = refl
without-erased (a ∷ accounts) = ap (λ xs. without a ∷ xs) (without-erased accounts)

accounts-column_token :
    (b : Bool) (f : File)
    → map without (column b add_token f).tables.accounts ≡ map without f.tables.accounts
unfolding column add_token
accounts-column_token true f = refl
accounts-column_token false f = without-erased f.tables.accounts

meant_there :
    (there has : Bool) (accounts : List Account)
    → (there ≡ false → accounts ≡ [])
    → map (meant_account (if there then has else true)) accounts ≡ map (meant_account has) accounts
meant_there true has accounts h = refl
meant_there false has accounts h = rw (h refl) refl

upgraded_accounts :
    (f : File)
    → IsFile f
    → map without (upgraded f).tables.accounts
      ≡ map without (map (meant_account f.has_expiry) f.tables.accounts)
unfolding upgraded create_schema
upgraded_accounts f v =
    let g = create_schema f in
    let h = fill_end (column g.has_end add_end g) in
    let k = column h.has_expiry add_expiry h in
    accounts-column_token k.has_token k
    ∙ ap (map without) (
        accounts-column_expiry h.has_expiry h
        ∙ ap₂ (λ b xs. map (meant_account b) xs) (expiry-column_end g.has_end g)
            (accounts-column_end g.has_end g)
        ∙ meant_there f.accounts_there f.has_expiry f.tables.accounts v.no_accounts)

counters-column_end :
    (b : Bool) (f : File) → (fill_end (column b add_end f)).tables.counters ≡ f.tables.counters
unfolding fill_end column add_end
counters-column_end true f = refl
counters-column_end false f = refl

counters-column_expiry :
    (b : Bool) (f : File) → (column b add_expiry f).tables.counters ≡ f.tables.counters
unfolding column add_expiry
counters-column_expiry true f = refl
counters-column_expiry false f = refl

counters-column_token :
    (b : Bool) (f : File) → (column b add_token f).tables.counters ≡ f.tables.counters
unfolding column add_token
counters-column_token true f = refl
counters-column_token false f = refl

upgraded_counters : (f : File) → (upgraded f).tables.counters ≡ f.tables.counters
unfolding upgraded create_schema
upgraded_counters f =
    let g = create_schema f in
    let h = fill_end (column g.has_end add_end g) in
    let k = column h.has_expiry add_expiry h in
    counters-column_token k.has_token k
    ∙ counters-column_expiry h.has_expiry h
    ∙ counters-column_end g.has_end g

-- Over a file of any age, whichever of the later columns and tables it has, a migration that ends without
-- an error leaves the ports the file meant (without an end column, or with the end 0, each port is a
-- single one), the accounts it meant (without an expiry column, none expires) but for their tokens, and
-- the same counters. A table that is missing must have no rows.
pub migrate_keeps :
    (faults : Faults) (reads : Reads) (f : File)
    → IsFile f
    → (migrate faults reads f).0 ≡ none
    → let after = (migrate faults reads f).1.tables in
      (after.ports ≡ map (meant_port f.has_end) f.tables.ports)
      × (map without after.accounts
          ≡ map without (map (meant_account f.has_expiry) f.tables.accounts))
      × (after.counters ≡ f.tables.counters)
unfolding on_tables
migrate_keeps faults reads f v h =
    let done = migrate_done faults reads f h in
    let same = fill_tokens-Same faults reads (upgraded f).tables in
    (
      ap (λ r. r.1.tables.ports) done ∙ same.ports ∙ upgraded_ports f v,
      ap (λ r. map without r.1.tables.accounts) done ∙ same.accounts ∙ upgraded_accounts f v,
      ap (λ r. r.1.tables.counters) done ∙ same.counters ∙ upgraded_counters f,
    )

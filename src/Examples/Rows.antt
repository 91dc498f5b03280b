-- ===== src/Examples/Rows.antt =====
-- Examples of the theorems on internal/model/model.go, internal/store/store.go and
-- internal/nft/nft.go.
use nfuse.Base.{ok, zero, suc, any, false, true, ◌++◌, ◌⊎◌, ℕ, ◌≡◌, refl, ◌↔◌, none, [], ◌∷◌, arith}
use nfuse.Base.Text.{codes, text_eq}
use nfuse.Base.Float64.{Float64}
use nfuse.Model.{Port, Snapshot, CounterKey, dir_in, dir_out, validate}
use nfuse.Model.Validation.{IsValid, holders, validate_iff}
use nfuse.Model.Size.{byte_unit, IsUnitOf, byte_unit_lem}
use nfuse.Model.Token.{Reads, drew, get_or, letter, rejected, fill, generate_token, unique_token}
use nfuse.Model.Token.Fresh.{IsFresh, unique_token-IsFresh, new, again, unique_token-Draws}
use nfuse.Store.{load_rows}
use nfuse.Store.Rows.{validate-load_rows}
use nfuse.Nft.{build_commands}
use nfuse.Nft.Rules.{matched}
use nfuse.Nft.Treatment.{IsIn, Treats, packet_rules}
use nfuse.Model.{Account}
use nfuse.Examples.{calm, two_accounts, two_accounts-DbIsValid}

abbrev loaded : Snapshot
loaded = load_rows two_accounts

loaded-valid : validate loaded ≡ none
loaded-valid = validate-load_rows two_accounts two_accounts-DbIsValid

validate_iff_example : (validate loaded ≡ none) ↔ IsValid loaded
validate_iff_example = validate_iff loaded

abbrev dns : Port
dns = record { id = 2; account_id = 2; start = 53; end = 80 }

byte_unit_lem_example : (exp : ℕ) × IsUnitOf 5000000 (byte_unit 5000000) exp
byte_unit_lem_example = byte_unit_lem 5000000 (omega arith) (omega arith)

unique_token-IsFresh_example :
    IsFresh (codes "abc" ∷ []) (unique_token (codes "abc" ∷ []) calm.reads)
unique_token-IsFresh_example = unique_token-IsFresh (codes "abc" ∷ []) calm.reads

-- The token of the first sixteen reads is in use, that of the next is not.
abbrev bytes : ℕ → ℕ → Reads
bytes zero b = []
bytes (suc n) b = ok b ∷ bytes n b

first_drawn :
    generate_token (bytes 16 0 ++ bytes 16 1) ≡ drew (codes "AAAAAAAAAAAAAAAA") (bytes 16 1)
unfolding generate_token fill letter rejected get_or
first_drawn = refl

second_drawn : generate_token (bytes 16 1) ≡ drew (codes "BBBBBBBBBBBBBBBB") []
unfolding generate_token fill letter rejected get_or
second_drawn = refl

a_used : any (text_eq (codes "AAAAAAAAAAAAAAAA")) (codes "AAAAAAAAAAAAAAAA" ∷ []) ≡ true
unfolding text_eq
a_used = refl

b_free : any (text_eq (codes "BBBBBBBBBBBBBBBB")) (codes "AAAAAAAAAAAAAAAA" ∷ []) ≡ false
unfolding text_eq
b_free = refl

unique_token-Draws_example :
    unique_token (codes "AAAAAAAAAAAAAAAA" ∷ []) (bytes 16 0 ++ bytes 16 1)
    ≡ drew (codes "BBBBBBBBBBBBBBBB") []
unique_token-Draws_example =
    unique_token-Draws (codes "AAAAAAAAAAAAAAAA" ∷ []) (bytes 16 0 ++ bytes 16 1) []
      (codes "BBBBBBBBBBBBBBBB") (again first_drawn a_used (new second_drawn b_free))

abbrev web_out : CounterKey
web_out = record { port_id = 1; dir = dir_out }

abbrev no_float : Float64 → ℕ
no_float x = 0

packet_rules_example :
    ((holders 85 loaded.ports ≡ []) × (matched dir_in 85 (build_commands no_float loaded) ≡ []))
    ⊎ ((p : Port) × (a : Account) × (holders 85 loaded.ports ≡ p ∷ [])
        × IsIn a loaded.accounts
        × (a.id ≡ p.account_id)
        × Treats loaded.now a
            (record { port_id = p.id; dir = dir_in })
            (matched dir_in 85 (build_commands no_float loaded)))
packet_rules_example = packet_rules no_float loaded dir_in 85 loaded-valid

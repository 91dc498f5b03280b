-- ===== src/Nft/Rules.antt =====
-- What the rules that Apply of internal/nft/nft.go installs do with a packet, read off from the list
-- of commands, which the script is rendered from.
use nfuse.Base.{
  ℕ, ◌≤◌, ◌≡◌, refl, ◌∙◌, ap, inl, inr, Bool, true, false, ◌&&◌, Option, none, List, [], ◌∷◌, ◌++◌,
  map, arith, leb, if◌then◌else◌, keep, length, Bool-cases,
}
use nfuse.Base.Int.{ℤ}
use nfuse.Base.Map.{Map}
use nfuse.Base.Float64.{Float64}
use nfuse.Base.Sort.{insert_by, sort_by}
use nfuse.Model.{
  Account, Port, Counter, CounterKey, Direction, dir_in, dir_out, Snapshot, dir_eq, validate,
}
use nfuse.Model.Validation.{holders, validate_single_owner}
use nfuse.Nft.{
  Verdict, Command, add_table, delete_table, add_quota, add_counter, add_chain, add_rule,
  counter_command, counter_commands, verdicts, port_rules, rule_commands, quota_commands,
  build_commands,
}

-- The rule matches a packet of the direction with the port number.
matches : Direction → ℕ → Direction → Port → Bool
matches d n e p = dir_eq d e && (leb p.start n && leb n p.end)

-- The verdicts that a packet of the direction with the port number meets, in the order of the rules.
pub matched : Direction → ℕ → List Command → List Verdict
unfolding matches
matched d n [] = []
matched d n (add_rule e p v ∷ rest) =
    let others = matched d n rest in if matches d n e p then v ∷ others else others
matched d n (add_table ∷ rest) = matched d n rest
matched d n (delete_table ∷ rest) = matched d n rest
matched d n (add_quota id limit used ∷ rest) = matched d n rest
matched d n (add_counter k packets bytes ∷ rest) = matched d n rest
matched d n (add_chain e ∷ rest) = matched d n rest

matched-append :
    (d : Direction) (n : ℕ) (xs ys : List Command)
    → matched d n (xs ++ ys) ≡ matched d n xs ++ matched d n ys
unfolding matched
matched-append d n [] ys = refl
matched-append d n (add_rule e p v ∷ rest) ys =
    let ih = matched-append d n rest ys in
    elim (Bool-cases (matches d n e p)) [ inl h ↦ rw (h, ih) refl | inr h ↦ rw (h, ih) refl ]
matched-append d n (add_table ∷ rest) ys = matched-append d n rest ys
matched-append d n (delete_table ∷ rest) ys = matched-append d n rest ys
matched-append d n (add_quota id limit used ∷ rest) ys = matched-append d n rest ys
matched-append d n (add_counter k packets bytes ∷ rest) ys = matched-append d n rest ys
matched-append d n (add_chain e ∷ rest) ys = matched-append d n rest ys

matched-map :
    (d e : Direction) (n : ℕ) (p : Port) (vs : List Verdict)
    → matched d n (map (add_rule e p) vs) ≡ (if matches d n e p then vs else [])
unfolding matched
matched-map d e n p [] = ground arith
matched-map d e n p (v ∷ vs) = let ih = matched-map d e n p vs in ground (arith, ih)

matched-counter_commands :
    (d : Direction) (n : ℕ) (counters : Map CounterKey Counter) (ports : List Port)
    (rest : List Command)
    → matched d n (counter_commands counters ports ++ rest) ≡ matched d n rest
unfolding matched counter_commands counter_command
matched-counter_commands d n counters [] rest = refl
matched-counter_commands d n counters (p ∷ ports) rest =
    let ih = matched-counter_commands d n counters ports rest in ground (arith, ih)

-- A list sorted by the key keeps its only element that passes the test.
keep-insert_by {ℓ} :
    {A : Type ℓ} (key : A → ℕ) (q : A → Bool) (x : A) (xs : List A)
    → q x ≡ false
    → keep q (insert_by key x xs) ≡ keep q xs
unfolding insert_by
keep-insert_by key q x [] h = rw h refl
keep-insert_by key q x (y ∷ ys) h = let ih = keep-insert_by key q x ys h in ground (arith, ih)

keep-insert_by_only {ℓ} :
    {A : Type ℓ} (key : A → ℕ) (q : A → Bool) (x : A) (xs : List A)
    → q x ≡ true
    → length (keep q xs) ≤ 0
    → keep q (insert_by key x xs) ≡ x ∷ []
unfolding insert_by
keep-insert_by_only key q x [] h e = rw h refl
keep-insert_by_only key q x (y ∷ ys) h e =
    let ih = keep-insert_by_only key q x ys h in ground (arith, ih)

keep-sort_by {ℓ} :
    {A : Type ℓ} (key : A → ℕ) (q : A → Bool) (xs : List A)
    → length (keep q xs) ≤ 1
    → keep q (sort_by key xs) ≡ keep q xs
unfolding sort_by
keep-sort_by key q [] h = refl
keep-sort_by key q (x ∷ xs) h =
    let ih = keep-sort_by key q xs in
    let skip = keep-insert_by key q x (sort_by key xs) in
    let only = keep-insert_by_only key q x (sort_by key xs) in ground (arith, ih, skip, only)

-- The verdicts of the rules of each port of the list in turn.
unfoldable pub all_verdicts : Option ℤ → List Account → Direction → List Port → List Verdict
all_verdicts now accounts d [] = []
all_verdicts now accounts d (p ∷ ps) = verdicts now accounts p d ++ all_verdicts now accounts d ps

all_verdicts_if :
    (now : Option ℤ) (accounts : List Account) (d : Direction) (p : Port) (ps : List Port)
    (b : Bool)
    → (if b then verdicts now accounts p d else []) ++ all_verdicts now accounts d ps
      ≡ all_verdicts now accounts d (if b then p ∷ ps else ps)
unfolding all_verdicts
all_verdicts_if now accounts d p ps true = refl
all_verdicts_if now accounts d p ps false = refl

matched-port_rules :
    (now : Option ℤ) (accounts : List Account) (d e : Direction) (n : ℕ) (p : Port)
    → matched d n (port_rules now accounts p e)
      ≡ (if matches d n e p then verdicts now accounts p e else [])
unfolding port_rules
matched-port_rules now accounts d e n p = matched-map d e n p (verdicts now accounts p e)

matched-rule_commands :
    (now : Option ℤ) (accounts : List Account) (d : Direction) (n : ℕ) (ports : List Port)
    → matched d n (rule_commands now accounts ports) ≡ all_verdicts now accounts d (holders n ports)
unfolding rule_commands all_verdicts matched matches
matched-rule_commands now accounts d n [] = refl
matched-rule_commands now accounts dir_in n (p ∷ ports) =
    rw
      (
        matched-append dir_in n (port_rules now accounts p dir_in)
            (port_rules now accounts p dir_out ++ rule_commands now accounts ports),
        matched-append dir_in n (port_rules now accounts p dir_out)
            (rule_commands now accounts ports),
        matched-port_rules now accounts dir_in dir_in n p,
        matched-port_rules now accounts dir_in dir_out n p,
        matched-rule_commands now accounts dir_in n ports,
      )
      (all_verdicts_if now accounts dir_in p (holders n ports) (leb p.start n && leb n p.end))
matched-rule_commands now accounts dir_out n (p ∷ ports) =
    rw
      (
        matched-append dir_out n (port_rules now accounts p dir_in)
            (port_rules now accounts p dir_out ++ rule_commands now accounts ports),
        matched-append dir_out n (port_rules now accounts p dir_out)
            (rule_commands now accounts ports),
        matched-port_rules now accounts dir_out dir_in n p,
        matched-port_rules now accounts dir_out dir_out n p,
        matched-rule_commands now accounts dir_out n ports,
      )
      (all_verdicts_if now accounts dir_out p (holders n ports) (leb p.start n && leb n p.end))

matched-quota_commands :
    (convert : Float64 → ℕ) (d : Direction) (n : ℕ) (accounts : List Account) (rest : List Command)
    → matched d n (quota_commands convert accounts ++ rest) ≡ matched d n rest
unfolding quota_commands matched
matched-quota_commands convert d n [] rest = refl
matched-quota_commands convert d n (a ∷ accounts) rest =
    let ih = matched-quota_commands convert d n accounts rest in ground (arith, ih)

-- In a snapshot that Validate accepts, a packet meets the rules of the ports that hold its number.
pub matched-build_commands :
    (convert : Float64 → ℕ) (s : Snapshot) (d : Direction) (n : ℕ)
    → validate s ≡ none
    → matched d n (build_commands convert s) ≡ all_verdicts s.now s.accounts d (holders n s.ports)
unfolding build_commands matched
matched-build_commands convert s d n h =
    let ports = sort_by (λ (p : Port). p.start) s.ports in
    let rules = rule_commands s.now s.accounts ports in
    matched-quota_commands convert d n s.accounts
      (counter_commands s.counters ports ++ (add_chain dir_in ∷ add_chain dir_out ∷ rules))
    ∙ (matched-counter_commands d n s.counters ports (add_chain dir_in ∷ add_chain dir_out ∷ rules)
        ∙ (matched-rule_commands s.now s.accounts d n ports
            ∙ ap (all_verdicts s.now s.accounts d) (
                keep-sort_by (λ (p : Port). p.start) (λ p. leb p.start n && leb n p.end) s.ports
                  (validate_single_owner s n h))))

-- ===== src/Nft/Names.antt =====
-- The object names of internal/nft/nft.go are read back: counterName and parseCounterName, quotaName
-- and parseQuotaName.
use nfuse.Base.{ℕ, ◌<◌, ◌^◌, ◌≡◌, refl, sym, ap, ◌∙◌, none, some, [], ◌∷◌, ◌++◌, arith}
use mathlib.Core.List.{reverse, reverse-append, reverse-reverse, append-nil}
use nfuse.Base.Text.{Text, codes}
use nfuse.Base.Decimal.{itoa, scan_int, scan_int-itoa}
use nfuse.Model.{CounterKey, Direction, dir_in, dir_out}
use nfuse.Nft.{counter_name, quota_name}
use nfuse.Nft.Reading.{strip_prefix, strip_suffix, with_dir, parse_counter_name, parse_quota_name}

strip_prefix-append : (p s : Text) → strip_prefix p (p ++ s) ≡ some s
unfolding strip_prefix
strip_prefix-append [] s = refl
strip_prefix-append (c ∷ p) s = ground (arith, strip_prefix-append p s)

strip_suffix-append : (suffix s : Text) → strip_suffix suffix (s ++ suffix) ≡ some s
unfolding strip_suffix
strip_suffix-append suffix s =
    rw
      (
        strip_suffix,
        reverse-append s suffix,
        strip_prefix-append (reverse suffix) (reverse s),
        reverse-reverse,
      )
      refl

-- A name that ends in "_out" does not end in "_in".
not_in_suffix : (s : Text) → strip_suffix (codes "_in") (s ++ codes "_out") ≡ none
unfolding strip_suffix strip_prefix
not_in_suffix s = rw (reverse-append s (codes "_out"), strip_suffix) refl

scan_id : (id : ℕ) → id < 2 ^ 63 → scan_int (itoa id) ≡ some id
scan_id id h = ap scan_int (sym (append-nil (itoa id))) ∙ scan_int-itoa id [] h tt

parse_counter_in :
    (id : ℕ)
    → id < 2 ^ 63
    → parse_counter_name (counter_name (record { port_id = id; dir = dir_in }))
      ≡ some (record { port_id = id; dir = dir_in })
unfolding parse_counter_name counter_name strip_prefix with_dir
parse_counter_in id h =
    rw (parse_counter_name, strip_suffix-append (codes "_in") (itoa id), scan_id id h) refl

parse_counter_out :
    (id : ℕ)
    → id < 2 ^ 63
    → parse_counter_name (counter_name (record { port_id = id; dir = dir_out }))
      ≡ some (record { port_id = id; dir = dir_out })
unfolding parse_counter_name counter_name strip_prefix with_dir
parse_counter_out id h =
    rw
      (
        parse_counter_name,
        not_in_suffix (itoa id),
        strip_suffix-append (codes "_out") (itoa id),
        scan_id id h,
      )
      refl

parse_counter_at :
    (id : ℕ) (d : Direction)
    → id < 2 ^ 63
    → parse_counter_name (counter_name (record { port_id = id; dir = d }))
      ≡ some (record { port_id = id; dir = d })
parse_counter_at id dir_in h = parse_counter_in id h
parse_counter_at id dir_out h = parse_counter_out id h

-- The name of a port's counter in a direction is read back to that port and direction, for every id
-- of a database row.
parse_counter_name-counter_name :
    (k : CounterKey) → k.port_id < 2 ^ 63 → parse_counter_name (counter_name k) ≡ some k
parse_counter_name-counter_name k h = parse_counter_at k.port_id k.dir h

-- The name of an account's quota is read back to that account, for every id of a database row.
parse_quota_name-quota_name : (id : ℕ) → id < 2 ^ 63 → parse_quota_name (quota_name id) ≡ some id
unfolding parse_quota_name quota_name strip_prefix
parse_quota_name-quota_name id h = rw (scan_id id h) refl

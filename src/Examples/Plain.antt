-- ===== src/Examples/Plain.antt =====
-- A plain encoding of requests and answers, for the examples of internal/rpc/client.go.
use nfuse.Base.{
  ℕ, zero, suc, ◌≡◌, refl, Bool, true, false, Option, none, some, [], ◌∷◌, ◌++◌, length, Result, ok,
  err,
}
use nfuse.Base.Int.{ℤ, pos, negsuc}
use nfuse.Base.Text.{Text, codes}
use nfuse.Base.Float64.{Float64, nan, inf, fin}
use nfuse.Model.{Error, external}
use nfuse.Rpc.{Codec, Request, AccountParams, Payload, state, health, added, token}
use nfuse.Rpc.Client.{
  ClientCodec, Params, Reply, StateResult, account_params, tier_params, delete_params,
  interval_params, id_params, pair_params, expiry_params,
}

-- The first n code points and the rest.
abbrev split : ℕ → Text → Option (Text × Text)
split zero t = some ([], t)
split (suc n) [] = none
split (suc n) (c ∷ t) =
    let later = split n t in elim later [ none ↦ none | some (a, b) ↦ some (c ∷ a, b) ]

pub split-append : (a b : Text) → split (length a) (a ++ b) ≡ some (a, b)
split-append [] b = refl
split-append (c ∷ a) b = rw (split-append a b) refl

abbrev bit : Bool → ℕ
bit true = 1
bit false = 0

abbrev is_bit : ℕ → Bool
is_bit zero = false
is_bit (suc n) = true

pub is_bit-bit : (b : Bool) → is_bit (bit b) ≡ b
is_bit-bit true = refl
is_bit-bit false = refl

abbrev int_text : ℤ → Text → Text
int_text (pos n) rest = 0 ∷ n ∷ rest
int_text (negsuc n) rest = 1 ∷ n ∷ rest

abbrev read_int : Text → Option (ℤ × Text)
read_int (zero ∷ n ∷ rest) = some (pos n, rest)
read_int (suc k ∷ n ∷ rest) = some (negsuc n, rest)
read_int _ = none

-- A limit and an anchor day before the rest. NaN and the infinities are refused.
abbrev terms_text : Float64 → ℤ → Text → Result Text Text
terms_text nan anchor rest = err (codes "NaN")
terms_text (inf b) anchor rest = err (codes "Inf")
terms_text (fin b m e) anchor rest = ok (bit b ∷ m ∷ int_text e (int_text anchor rest))

abbrev anchor_next : Float64 → Option (ℤ × Text) → Option (Float64 × ℤ × Text)
anchor_next x none = none
anchor_next x (some (anchor, rest)) = some (x, anchor, rest)

abbrev exponent_next : Bool → ℕ → Option (ℤ × Text) → Option (Float64 × ℤ × Text)
exponent_next b m none = none
exponent_next b m (some (e, rest)) = anchor_next (fin b m e) (read_int rest)

abbrev read_terms : Text → Option (Float64 × ℤ × Text)
read_terms (b ∷ m ∷ rest) = exponent_next (is_bit b) m (read_int rest)
read_terms _ = none

abbrev read_failed : Error
read_failed = external (codes "unexpected end of JSON input")

abbrev named_account : Float64 → ℤ → Option (Text × Text) → Result Error (AccountParams Text)
named_account x anchor none = err read_failed
named_account x anchor (some (name, t)) =
    ok (record { key = name; tier = t; limit_gib = x; anchor_day = anchor })

abbrev new_account_of : Option (Float64 × ℤ × Text) → Result Error (AccountParams Text)
new_account_of none = err read_failed
new_account_of (some (x, anchor, [])) = err read_failed
new_account_of (some (x, anchor, n ∷ rest)) = named_account x anchor (split n rest)

abbrev tier_params_of : Option (Float64 × ℤ × Text) → Result Error (AccountParams ℕ)
tier_params_of none = err read_failed
tier_params_of (some (x, anchor, [])) = err read_failed
tier_params_of (some (x, anchor, id ∷ t)) =
    ok (record { key = id; tier = t; limit_gib = x; anchor_day = anchor })

abbrev two : {A : Type 0} → (ℕ → ℕ → A) → Text → Result Error A
two f (a ∷ b ∷ []) = ok (f a b)
two f _ = err read_failed

abbrev three : {A : Type 0} → (ℕ → ℕ → ℕ → A) → Text → Result Error A
three f (a ∷ b ∷ c ∷ []) = ok (f a b c)
three f _ = err read_failed

abbrev one : Text → Result Error ℕ
one (a ∷ []) = ok a
one _ = err read_failed

abbrev expiry_of : ℕ → Option (ℤ × Text) → Result Error (ℕ × ℤ)
expiry_of id none = err read_failed
expiry_of id (some (z, rest)) = ok (id, z)

abbrev read_expiry_plain : Text → Result Error (ℕ × ℤ)
read_expiry_plain [] = err read_failed
read_expiry_plain (id ∷ rest) = expiry_of id (read_int rest)

abbrev request_of : Option (Text × Text) → Result Error Request
request_of none = err read_failed
request_of (some (m, p)) = ok (record { method = m; params = p })

abbrev read_request_plain : Text → Result Error Request
read_request_plain [] = err read_failed
read_request_plain (n ∷ rest) = request_of (split n rest)

abbrev result_text : Payload → Result Error Text
result_text (state [] last) = ok (0 ∷ last)
result_text (state (v ∷ vs) last) = err read_failed
result_text (health h) = err read_failed
result_text (added n) = ok (n ∷ [])
result_text (token t) = ok (0 ∷ t)

abbrev pub plain_codec : Codec
plain_codec = record {
  read_request = read_request_plain;
  read_new_account = λ raw. new_account_of (read_terms raw);
  read_tier = λ raw. tier_params_of (read_terms raw);
  read_delete = two λ id b. (id, is_bit b);
  read_interval = λ m. three λ id start end. record { id = id; start = start; end = end };
  read_id = λ m. one;
  read_pair = λ m. two λ a b. (a, b);
  read_expiry = read_expiry_plain;
  write_result = result_text;
}

abbrev params_text : Params → Result Text Text
params_text (account_params p) =
    terms_text p.limit_gib p.anchor_day (length p.key ∷ (p.key ++ p.tier))
params_text (tier_params p) = terms_text p.limit_gib p.anchor_day (p.key ∷ p.tier)
params_text (delete_params id cascade) = ok (id ∷ bit cascade ∷ [])
params_text (interval_params p) = ok (p.id ∷ p.start ∷ p.end ∷ [])
params_text (id_params id) = ok (id ∷ [])
params_text (pair_params a b) = ok (a ∷ b ∷ [])
params_text (expiry_params id z) = ok (id ∷ int_text z [])

abbrev reply_of : ℕ → Option (Text × Text) → Result Text Reply
reply_of b none = err []
reply_of b (some (result, error)) = ok (record { is_ok = is_bit b; result = result; error = error })

abbrev read_reply_plain : Text → Result Text Reply
read_reply_plain (b ∷ n ∷ rest) = reply_of b (split n rest)
read_reply_plain _ = err []

abbrev read_state_plain : Text → Result Text StateResult
read_state_plain [] = err []
read_state_plain (c ∷ last) = ok (some [], last)

abbrev read_added_plain : Text → Result Text ℕ
read_added_plain (n ∷ []) = ok n
read_added_plain _ = err []

abbrev read_token_plain : Text → Result Text Text
read_token_plain [] = err []
read_token_plain (c ∷ t) = ok t

abbrev pub plain_json : ClientCodec
plain_json = record {
  write_params = λ m. params_text;
  read_reply = read_reply_plain;
  read_state = read_state_plain;
  read_health = λ raw. err [];
  read_added = read_added_plain;
  read_token = read_token_plain;
}

abbrev pub reply_text : Reply → Text
reply_text r = bit r.is_ok ∷ length r.result ∷ (r.result ++ r.error)

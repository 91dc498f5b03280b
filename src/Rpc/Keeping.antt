-- ===== src/Rpc/Keeping.antt =====
-- What the server of internal/rpc/server.go keeps: every property that the operations of its backend
-- keep.
use nfuse.Base.{
  ℕ, ◌<◌, ◌^◌, ◌≡◌, Bool, List, [], ◌∷◌, is_empty, zero, suc, Result, ok, err, Bool-cases,
  Result-cases, Option-cases, inl, inr,
}
use nfuse.Base.Text.{Text}
use nfuse.Base.Int.{ℤ}
use nfuse.Base.Float64.{Float64}
use nfuse.Model.{Tier, Error}
use nfuse.Rpc.{
  Backend, Codec, Host, Method, Request, Response, IntervalParams, Payload, run_method, dispatch,
  handle, method_of, get_state, get_health, add_account, delete_account, set_tier, add_port,
  edit_port, delete_port, move_port, reset_account, set_usage, set_expiry, force_persist,
  regenerate_token, get_master_token, regenerate_master_token, unmarshal, ok_err, reply_with,
  tier_of, added, token,
}

-- The parameters of a port's interval are read into uint16.
abbrev pub ReadsUint16 : Codec → Type 0
ReadsUint16 codec =
    (method : Method) (raw : Text) (p : IntervalParams)
    → codec.read_interval method raw ≡ ok p
    → (p.start < 2 ^ 16) × (p.end < 2 ^ 16)

-- Every operation of the backend that may change the state keeps the property.
pub record Keeping {S : Type 0} (P : S → Type 0) (be : Backend S) : Type 0 where
  pub add_account :
      (name : Text) (tier : Tier) (limit : Float64) (anchor : ℤ) (s : S)
      → P s
      → P (be.add_account name tier limit anchor s).1
  pub delete_account :
      (id : ℕ) (cascade : Bool) (s : S) → P s → P (be.delete_account id cascade s).1
  pub set_tier :
      (id : ℕ) (tier : Tier) (limit : Float64) (anchor : ℤ) (s : S)
      → P s
      → P (be.set_tier id tier limit anchor s).1
  pub add_port :
      (id start end : ℕ) (s : S)
      → start < 2 ^ 16
      → end < 2 ^ 16
      → P s
      → P (be.add_port id start end s).1
  pub edit_port :
      (id start end : ℕ) (s : S)
      → start < 2 ^ 16
      → end < 2 ^ 16
      → P s
      → P (be.edit_port id start end s).1
  pub delete_port : (id : ℕ) (s : S) → P s → P (be.delete_port id s).1
  pub move_port : (id account_id : ℕ) (s : S) → P s → P (be.move_port id account_id s).1
  pub reset_account : (id : ℕ) (s : S) → P s → P (be.reset_account id s).1
  pub set_usage : (id used : ℕ) (s : S) → P s → P (be.set_usage id used s).1
  pub set_expiry : (id : ℕ) (expires : ℤ) (s : S) → P s → P (be.set_expiry id expires s).1
  pub force_persist : (s : S) → P s → P (be.force_persist s).1
  pub regenerate_token : (id : ℕ) (s : S) → P s → P (be.regenerate_token id s).1
  pub regenerate_master_token : (s : S) → P s → P (be.regenerate_master_token s).1

module _ {S : Type 0} (P : S → Type 0) where
  ok_err_keeps : (r : Result Error (Unit {0}) × S) → P r.1 → P (ok_err r).1
  unfolding ok_err
  ok_err_keeps (err e, s) h = h
  ok_err_keeps (ok u, s) h = h

  unmarshal_keeps :
      {A : Type 0} (read : Text → Result Error A) (raw : Text) (run : A → S → Response × S) (s : S)
      → P s
      → ((p : A) → read raw ≡ ok p → P (run p s).1)
      → P (unmarshal read raw run s).1
  unfolding unmarshal
  unmarshal_keeps read raw run s h k = elim (Bool-cases (is_empty raw)) [
    | inl missing ↦ rw missing h
    | inr there ↦ elim (Result-cases (read raw)) [
      | inl (p, good) ↦ rw (there, good) (k p good)
      | inr (e, bad) ↦ rw (there, bad) h
    ]
  ]

  module _ (be : Backend S) (codec : Codec) (host : Host) where
    reply_with_keeps :
        {A : Type 0} (payload : A → Payload) (r : Result Error A × S)
        → P r.1
        → P (reply_with be codec host payload r).1
    unfolding reply_with
    reply_with_keeps payload (err e, s) h = h
    reply_with_keeps payload (ok x, s) h = h

    module _ (k : Keeping P be) (uint16 : ReadsUint16 codec) where
      run_method_keeps :
          (method : Method) (raw : Text) (s : S) → P s → P (run_method be codec host method raw s).1
      unfolding run_method
      run_method_keeps get_state raw s v = v
      run_method_keeps get_health raw s v = v
      run_method_keeps get_master_token raw s v = v
      run_method_keeps add_account raw s v =
          unmarshal_keeps codec.read_new_account raw
            (λ p t.
              reply_with be codec host added
                (be.add_account p.key (tier_of p.tier) p.limit_gib p.anchor_day t))
            s v
            λ p h.
              reply_with_keeps added
                (be.add_account p.key (tier_of p.tier) p.limit_gib p.anchor_day s)
                (k.add_account p.key (tier_of p.tier) p.limit_gib p.anchor_day s v)
      run_method_keeps delete_account raw s v =
          unmarshal_keeps codec.read_delete raw (λ p t. ok_err (be.delete_account p.0 p.1 t)) s v
            λ p h. ok_err_keeps (be.delete_account p.0 p.1 s) (k.delete_account p.0 p.1 s v)
      run_method_keeps set_tier raw s v =
          unmarshal_keeps codec.read_tier raw
            (λ p t. ok_err (be.set_tier p.key (tier_of p.tier) p.limit_gib p.anchor_day t)) s v
            λ p h.
              ok_err_keeps (be.set_tier p.key (tier_of p.tier) p.limit_gib p.anchor_day s)
                (k.set_tier p.key (tier_of p.tier) p.limit_gib p.anchor_day s v)
      run_method_keeps add_port raw s v =
          unmarshal_keeps (codec.read_interval add_port) raw
            (λ p t. ok_err (be.add_port p.id p.start p.end t)) s v
            λ p h. ok_err_keeps (be.add_port p.id p.start p.end s) (
              k.add_port p.id p.start p.end s (uint16 add_port raw p h).0
                (uint16 add_port raw p h).1 v)
      run_method_keeps edit_port raw s v =
          unmarshal_keeps (codec.read_interval edit_port) raw
            (λ p t. ok_err (be.edit_port p.id p.start p.end t)) s v
            λ p h. ok_err_keeps (be.edit_port p.id p.start p.end s) (
              k.edit_port p.id p.start p.end s (uint16 edit_port raw p h).0
                (uint16 edit_port raw p h).1 v)
      run_method_keeps delete_port raw s v =
          unmarshal_keeps (codec.read_id delete_port) raw (λ p t. ok_err (be.delete_port p t)) s v
            λ p h. ok_err_keeps (be.delete_port p s) (k.delete_port p s v)
      run_method_keeps reset_account raw s v =
          unmarshal_keeps (codec.read_id reset_account) raw (λ p t. ok_err (be.reset_account p t)) s
            v λ p h. ok_err_keeps (be.reset_account p s) (k.reset_account p s v)
      run_method_keeps regenerate_token raw s v =
          unmarshal_keeps (codec.read_id regenerate_token) raw
            (λ p t. reply_with be codec host token (be.regenerate_token p t)) s v
            λ p h. reply_with_keeps token (be.regenerate_token p s) (k.regenerate_token p s v)
      run_method_keeps move_port raw s v =
          unmarshal_keeps (codec.read_pair move_port) raw (λ p t. ok_err (be.move_port p.0 p.1 t)) s
            v λ p h. ok_err_keeps (be.move_port p.0 p.1 s) (k.move_port p.0 p.1 s v)
      run_method_keeps set_usage raw s v =
          unmarshal_keeps (codec.read_pair set_usage) raw (λ p t. ok_err (be.set_usage p.0 p.1 t)) s
            v λ p h. ok_err_keeps (be.set_usage p.0 p.1 s) (k.set_usage p.0 p.1 s v)
      run_method_keeps set_expiry raw s v =
          unmarshal_keeps codec.read_expiry raw (λ p t. ok_err (be.set_expiry p.0 p.1 t)) s v
            λ p h. ok_err_keeps (be.set_expiry p.0 p.1 s) (k.set_expiry p.0 p.1 s v)
      run_method_keeps force_persist raw s v =
          ok_err_keeps (be.force_persist s) (k.force_persist s v)
      run_method_keeps regenerate_master_token raw s v =
          reply_with_keeps token (be.regenerate_master_token s) (k.regenerate_master_token s v)

      dispatch_keeps : (req : Request) (s : S) → P s → P (dispatch be codec host req s).1
      unfolding dispatch
      dispatch_keeps req s v = elim (Option-cases (method_of req.method)) [
        | inl unknown ↦ rw (dispatch, unknown) v
        | inr (method, known) ↦ rw (dispatch, known) (run_method_keeps method req.params s v)
      ]

      -- Whatever lines a client sends, and wherever the connection breaks, the backend keeps every
      -- property that its operations keep.
      pub handle_keeps :
          (sends : ℕ) (lines : List Text) (s : S) → P s → P (handle be codec host sends lines s).1
      unfolding handle
      handle_keeps sends [] s v = v
      handle_keeps zero (line ∷ rest) s v = elim (Bool-cases (is_empty line)) [
        | inl blank ↦ rw blank (handle_keeps zero rest s v)
        | inr full ↦ elim (Result-cases (codec.read_request line)) [
          | inl (req, h) ↦ rw (full, h) (dispatch_keeps req s v)
          | inr (bad, h) ↦ rw (full, h) (handle_keeps zero rest s v)
        ]
      ]
      handle_keeps (suc n) (line ∷ rest) s v = elim (Bool-cases (is_empty line)) [
        | inl blank ↦ rw blank (handle_keeps (suc n) rest s v)
        | inr full ↦ elim (Result-cases (codec.read_request line)) [
          | inl (req, h) ↦
              rw (full, h)
                (handle_keeps n rest (dispatch be codec host req s).1 (dispatch_keeps req s v))
          | inr (bad, h) ↦ rw (full, h) (handle_keeps n rest s v)
        ]
      ]

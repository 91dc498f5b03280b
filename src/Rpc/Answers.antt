-- ===== src/Rpc/Answers.antt =====
-- What the server of internal/rpc/server.go answers: one response to each line, and no effect of a
-- request that it refuses.
use nfuse.Base.{
  ℕ, zero, suc, ◌≤◌, ◌≡◌, refl, Bool, true, false, not, List, [], ◌∷◌, is_empty, keep, length,
  arith, Bool-cases, Result-cases, inl, inr,
}
use nfuse.Base.Text.{Text}
use nfuse.Rpc.{
  Backend, Codec, Host, Method, failure, missing_params, run_method, dispatch, handle, unmarshal,
  get_state, get_health, add_account, delete_account, set_tier, add_port, edit_port, delete_port,
  move_port, reset_account, set_usage, set_expiry, force_persist, regenerate_token,
  get_master_token, regenerate_master_token,
}

-- The methods that have parameters.
abbrev has_params : Method → Bool
has_params get_state = false
has_params get_health = false
has_params force_persist = false
has_params get_master_token = false
has_params regenerate_master_token = false
has_params _ = true

module _ {S : Type 0} (be : Backend S) (codec : Codec) (host : Host) where
  -- A request without the parameters of its method is refused, and the state stays as it is.
  run_method_missing :
      (method : Method) (s : S)
      → has_params method ≡ true
      → run_method be codec host method [] s ≡ (failure missing_params, s)
  unfolding run_method unmarshal
  run_method_missing add_account s h = refl
  run_method_missing delete_account s h = refl
  run_method_missing set_tier s h = refl
  run_method_missing add_port s h = refl
  run_method_missing edit_port s h = refl
  run_method_missing delete_port s h = refl
  run_method_missing move_port s h = refl
  run_method_missing reset_account s h = refl
  run_method_missing set_usage s h = refl
  run_method_missing set_expiry s h = refl
  run_method_missing regenerate_token s h = refl
  run_method_missing get_state s h = cc
  run_method_missing get_health s h = cc
  run_method_missing force_persist s h = cc
  run_method_missing get_master_token s h = cc
  run_method_missing regenerate_master_token s h = cc

  -- A connection that takes an answer to every line gets exactly one to each line that is not empty.
  length-handle :
      (sends : ℕ) (lines : List Text) (s : S)
      → length lines ≤ sends
      → length (handle be codec host sends lines s).0 ≡ length (keep (λ l. not (is_empty l)) lines)
  unfolding handle
  length-handle sends [] s h = refl
  length-handle zero (line ∷ rest) s h = absurd (omega arith)
  length-handle (suc n) (line ∷ rest) s h = elim (Bool-cases (is_empty line)) [
    | inl blank ↦ rw (handle, blank) (length-handle (suc n) rest s (omega arith))
    | inr full ↦ elim (Result-cases (codec.read_request line)) [
      | inl (req, good) ↦
          let ih = length-handle n rest (dispatch be codec host req s).1 (omega arith) in
          rw (handle, full, good) (omega arith)
      | inr (e, bad) ↦
          let ih = length-handle n rest s (omega arith) in rw (handle, full, bad) (omega arith)
    ]
  ]

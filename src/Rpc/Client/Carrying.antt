-- ===== src/Rpc/Client/Carrying.antt =====
-- A connection of internal/rpc/client.go to the server of internal/rpc/server.go: what the two sides
-- say to each other, and one request over a link that carries it.
use nfuse.Base.{
  ◌≡◌, Bool, refl, ap, ◌∙◌, true, false, Option, none, some, List, [], ◌∷◌, ◌++◌, is_empty, Result,
  ok, err,
}
use mathlib.Core.Path.{subst}
use nfuse.Base.Text.{Text, codes, text_eq}
use nfuse.Model.{Error}
use nfuse.Rpc.{
  Backend, Codec, Host, Request, Method, Response, RpcError, success, failure, bad_request,
  marshal_result, bad_params, engine, missing_params, unknown_method, run_method, dispatch, handle,
  method_of, find_method, Payload,
}
use nfuse.Rpc.Client.{
  Link, NetError, ClientCodec, ClientError, Reply, Scan, line, ended, refused, Want, Params,
  method_text, is_conn_err, read_result, read_line, receive, after_send, exchange, round_trip,
  after_first, after_dial, replay, call, server_closed,
}

-- How errors are worded, and how fmt quotes a string.
pub record Wording : Type 0 where
  pub of_error : Error → Text
  pub quote : Text → Text

unfoldable pub rpc_text : Wording → RpcError → Text
rpc_text words (bad_request e) = codes "bad request: " ++ words.of_error e
rpc_text words (marshal_result e) = codes "marshal result: " ++ words.of_error e
rpc_text words (bad_params e) = words.of_error e
rpc_text words (engine e) = words.of_error e
rpc_text words missing_params = codes "missing params"
rpc_text words (unknown_method s) = codes "unknown method " ++ words.quote s

-- The fields of a response that is sent.
pub wire : Wording → Response → Reply
unfolding rpc_text
wire words (success none) = record { is_ok = true; result = []; error = [] }
wire words (success (some t)) = record { is_ok = true; result = t; error = [] }
wire words (failure e) = record { is_ok = false; result = []; error = rpc_text words e }

abbrev pub first_line : (Response → Text) → List Response → Scan
first_line write [] = ended
first_line write (r ∷ rest) = line (write r)

method_of-method_text : (m : Method) → method_of (method_text m) ≡ some m
unfolding method_of find_method method_text text_eq
method_of-method_text Method.get_state = refl
method_of-method_text Method.get_health = refl
method_of-method_text Method.add_account = refl
method_of-method_text Method.delete_account = refl
method_of-method_text Method.set_tier = refl
method_of-method_text Method.add_port = refl
method_of-method_text Method.edit_port = refl
method_of-method_text Method.delete_port = refl
method_of-method_text Method.move_port = refl
method_of-method_text Method.reset_account = refl
method_of-method_text Method.set_usage = refl
method_of-method_text Method.set_expiry = refl
method_of-method_text Method.force_persist = refl
method_of-method_text Method.regenerate_token = refl
method_of-method_text Method.get_master_token = refl
method_of-method_text Method.regenerate_master_token = refl

module _ {S W : Type 0} (be : Backend S) (codec : Codec) (host : Host) (words : Wording)
    (link : Link W) (json : ClientCodec) where
  abbrev pub request_of : Method → Text → Request
  request_of m raw = record { method = method_text m; params = raw }

  -- The lines of the two sides. encoding/json reads back a request whose parameters it has written itself, a
  -- result that it has written itself, and an error whose text it need not mend: `is_plain` are the
  -- texts in valid UTF-8.
  abbrev pub IsWritten : (Text → Bool) → Response → Type 0
  IsWritten is_plain (success none) = Unit {0}
  IsWritten is_plain (success (some t)) = (x : Payload) × (codec.write_result x ≡ ok t)
  IsWritten is_plain (failure e) = is_plain (rpc_text words e) ≡ true

  pub record Lines : Type 0 where
    pub of_request : Request → Text
    pub of_response : Response → Text
    pub is_plain : Text → Bool
    pub full : (req : Request) → is_empty (of_request req) ≡ false
    pub read_request :
        (m : Method) (p : Params) (raw : Text)
        → json.write_params m p ≡ ok raw
        → codec.read_request (of_request (request_of m raw)) ≡ ok (request_of m raw)
    pub read_reply :
        (r : Response) → IsWritten is_plain r → json.read_reply (of_response r) ≡ ok (wire words r)

  -- `At s w`: in the world `w` the client is connected to a server at `s`. If the lines of a request with
  -- written parameters and of its answer fit into the buffers of the scanners (`fits`: below 8 MiB),
  -- the request is sent, the server takes its line, and the client gets the line of the answer.
  pub record Carries (lines : Lines) (At : S → W → Type 0) : Type 0 where
    pub fits : Text → Bool
    pub sent :
        (m : Method) (p : Params) (raw : Text) (s : S) (w : W)
        → At s w
        → json.write_params m p ≡ ok raw
        → fits (lines.of_request (request_of m raw)) ≡ true
        → (link.encode (request_of m raw) w).0 ≡ none
    pub carried :
        (m : Method) (p : Params) (raw : Text) (s : S) (w : W)
        → At s w
        → json.write_params m p ≡ ok raw
        → fits (lines.of_request (request_of m raw)) ≡ true
        → fits (lines.of_response (run_method be codec host m raw s).0) ≡ true
        → let out = handle be codec host 1 (lines.of_request (request_of m raw) ∷ []) s in
          ((link.scan (link.encode (request_of m raw) w).1).0 ≡ first_line lines.of_response out.0)
          × At out.1 (link.scan (link.encode (request_of m raw) w).1).1

  -- What a response gives the caller.
  unfoldable pub taken : {A : Type 0} → Method → Want A → Response → Result ClientError A
  taken m want (success none) = ok want.absent
  taken m want (success (some t)) = read_result link json m want t
  taken m want (failure e) = err (refused (rpc_text words e))

  read_line_lem :
      {A : Type 0} (m : Method) (want : Want A) (r : Response) (t : Text)
      → json.read_reply t ≡ ok (wire words r)
      → read_line link json m want t ≡ taken m want r
  unfolding read_line wire taken read_result
  read_line_lem m want (success none) t h = rw (read_line, h) refl
  read_line_lem m want (success (some raw)) t h = rw (read_line, h) refl
  read_line_lem m want (failure e) t h = rw (read_line, h) refl

  -- One line of a request is one run of its method and one answer.
  pub handle_one :
      (lines : Lines) (m : Method) (p : Params) (raw : Text) (s : S)
      → json.write_params m p ≡ ok raw
      → handle be codec host 1 (lines.of_request (request_of m raw) ∷ []) s
        ≡ ((run_method be codec host m raw s).0 ∷ [], (run_method be codec host m raw s).1)
  unfolding handle dispatch
  handle_one lines m p raw s written =
      rw
        (
          handle,
          lines.full (request_of m raw),
          lines.read_request m p raw written,
          dispatch,
          method_of-method_text m,
        )
        refl

  module _ (lines : Lines) (At : S → W → Type 0) (carries : Carries lines At) where
    receive_lem :
        {A : Type 0} (m : Method) (want : Want A) (r : Response) (found : Scan × W)
        → IsWritten lines.is_plain r
        → found.0 ≡ line (lines.of_response r)
        → receive link json m want found ≡ (taken m want r, found.1)
    unfolding receive
    receive_lem m want r (scan, w) v h =
        rw (h, read_line_lem m want r (lines.of_response r) (lines.read_reply r v)) refl

    after_send_lem :
        {A : Type 0} (m : Method) (want : Want A) (tried : Option NetError × W)
        → tried.0 ≡ none
        → after_send link json m want tried ≡ receive link json m want (link.scan tried.1)
    unfolding after_send
    after_send_lem m want (none, w) h = refl
    after_send_lem m want (some e, w) h = cc

    -- What the client has found is what the server answered, and the two are still connected.
    abbrev pub Served :
        {A : Type 0} → Method → Want A → Response × S → Result ClientError A × W → Type 0
    Served m want out found = (found.0 ≡ taken m want out.0) × At out.1 found.1

    -- The request and its answer fit into the buffers, and the answer can be read back.
    pub record Passes (m : Method) (raw : Text) (s : S) : Type 0 where
      pub request_fits : carries.fits (lines.of_request (request_of m raw)) ≡ true
      pub answer_fits : carries.fits (lines.of_response (run_method be codec host m raw s).0) ≡ true
      pub answer_written : IsWritten lines.is_plain (run_method be codec host m raw s).0

    -- One exchange runs the method on the server, and gives what its response gives.
    exchange-Served :
        {A : Type 0} (m : Method) (p : Params) (raw : Text) (want : Want A) (s : S) (w : W)
        → At s w
        → json.write_params m p ≡ ok raw
        → Passes m raw s
        → Served m want (run_method be codec host m raw s) (exchange link json m raw want w)
    unfolding exchange
    exchange-Served m p raw want s w at written passes =
        let req = request_of m raw in
        let one = handle_one lines m p raw s written in
        let out = carries.carried m p raw s w at written passes.request_fits passes.answer_fits in
        let heard : (link.scan (link.encode req w).1).0
            ≡ line (lines.of_response (run_method be codec host m raw s).0) =
          out.0 ∙ ap (λ o. first_line lines.of_response o.0) one in
        let at' : At (run_method be codec host m raw s).1 (link.scan (link.encode req w).1).1 =
          subst (λ o. At o.1 (link.scan (link.encode req w).1).1) one out.1 in
        rw
          (
            after_send_lem m want (link.encode req w)
                (carries.sent m p raw s w at written passes.request_fits),
            receive_lem m want (run_method be codec host m raw s).0
                (link.scan (link.encode req w).1) passes.answer_written heard,
          )
          (refl, at')

    -- A request that the server performed, and whose answer was lost with the connection: the client
    -- dials again, and is then connected to the server as that request left it.
    pub record AnswerLost (m : Method) (raw : Text) (s : S) (w : W) : Type 0 where
      pub after : W
      pub sent : (link.encode (record { method = method_text m; params = raw }) w).0 ≡ none
      pub lost :
          link.scan (link.encode (record { method = method_text m; params = raw }) w).1
          ≡ (ended, after)
      pub redialed : (link.dial (link.close (link.sleep after)).1).0 ≡ none
      pub back :
          At (run_method be codec host m raw s).1 (link.dial (link.close (link.sleep after)).1).1

    after_dial_lem :
        {A : Type 0} (m : Method) (params : Option Params) (want : Want A) (e : ClientError)
        (tried : Option NetError × W)
        → tried.0 ≡ none
        → after_dial link json m params want e tried ≡ round_trip link json m params want tried.1
    unfolding after_dial
    after_dial_lem m params want e (none, w) h = refl
    after_dial_lem m params want e (some failed, w) h = cc

    exchange_lost :
        {A : Type 0} (m : Method) (raw : Text) (want : Want A) (s : S) (w : W)
        (l : AnswerLost m raw s w)
        → exchange link json m raw want w ≡ (err (server_closed m), l.after)
    unfolding exchange receive
    exchange_lost m raw want s w l =
        let req : Request = record { method = method_text m; params = raw } in
        rw (after_send_lem m want (link.encode req w) l.sent, l.lost) refl

    -- When the answer of a request is lost with its connection and the client can dial again, the
    -- request is sent again, whatever it changes: the server performs it twice, and the caller
    -- gets the answer of the second time. The parameters are such as encoding/json has written, the
    -- lines of the second exchange fit into the buffers of both sides, and the second answer has
    -- been written by encoding/json, or is an error in valid UTF-8.
    pub call_twice :
        {A : Type 0} (m : Method) (p : Params) (raw : Text) (want : Want A) (s : S) (w : W)
        → AnswerLost m raw s w
        → json.write_params m p ≡ ok raw
        → Passes m raw (run_method be codec host m raw s).1
        → Served m want
            (run_method be codec host m raw (run_method be codec host m raw s).1)
            (call link json m (some p) want w)
    unfolding call round_trip after_first replay is_conn_err
    call_twice m p raw want s w l written passes =
        let again = link.dial (link.close (link.sleep l.after)).1 in
        let once = (run_method be codec host m raw s).1 in
        rw
          (
            call,
            round_trip,
            written,
            exchange_lost m raw want s w l,
            after_first,
            after_dial_lem m (some p) want (server_closed m) again l.redialed,
            round_trip,
            written,
          )
          (exchange-Served m p raw want once again.1 l.back written passes)

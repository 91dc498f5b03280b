-- ===== src/Examples/Loopback.antt =====
-- A connection within one process, for the examples of internal/rpc/client.go.
use nfuse.Base.{
  ok, ℕ, zero, suc, ◌≡◌, refl, ap, Bool, true, false, Option, none, some, List, [], ◌∷◌, ◌++◌,
  length,
}
use nfuse.Base.Text.{Text, codes}
use nfuse.Rpc.{Backend, Host, Method, Request, Response, handle}
use nfuse.Rpc.Client.{Params, method_text, Link, Scan, line, ended, NetError, broken_pipe}
use nfuse.Rpc.Client.Carrying.{handle_one, AnswerLost, Wording, Lines, Carries, wire, first_line}
use nfuse.Examples.Plain.{split-append, is_bit-bit, plain_codec, plain_json, reply_text}

-- A server in the same process: its state, the line that waits for the client, whether the
-- connection stands, and how many answers are lost first.
pub record Loop (S : Type 0) : Type 0 where
  pub server : S
  pub waiting : Option Text
  pub up : Bool
  pub losses : ℕ

module _ {S : Type 0} (be : Backend S) (host : Host) (words : Wording) where
  abbrev request_text : Request → Text
  request_text req = length req.method ∷ (req.method ++ req.params)

  abbrev response_text : Response → Text
  response_text r = reply_text (wire words r)

  abbrev first_of : List Response → Option Text
  first_of [] = none
  first_of (r ∷ rest) = some (response_text r)

  abbrev pipe : NetError
  pipe = record { kind = broken_pipe; text = codes "broken pipe" }

  abbrev performed : Loop S → List Response × S → Loop S
  performed w out = record {
    server = out.1;
    waiting = first_of out.0;
    up = w.up;
    losses = w.losses;
  }

  abbrev loop_encode : Bool → Request → Loop S → Option NetError × Loop S
  loop_encode false req w = (some pipe, w)
  loop_encode true req w =
      (none, performed w (handle be plain_codec host 1 (request_text req ∷ []) w.server))

  abbrev loop_scan : ℕ → Option Text → Loop S → Scan × Loop S
  loop_scan (suc n) t w =
      (ended, record { server = w.server; waiting = none; up = false; losses = n })
  loop_scan zero none w = (ended, record w { up = false })
  loop_scan zero (some t) w = (line t, record w { waiting = none })

  abbrev pub loop : Link (Loop S)
  loop = record {
    encode = λ req w. loop_encode w.up req w;
    scan = λ w. loop_scan w.losses w.waiting w;
    close = λ w. (none, record w { up = false });
    dial = λ w. (none, record w { up = true });
    sleep = λ w. w;
  }

  abbrev pub loop-Lines : Lines be plain_codec host words loop plain_json
  loop-Lines = record {
    of_request = request_text;
    of_response = response_text;
    full = λ req. refl;
    is_plain = λ t. true;
    read_request = λ m p raw written. rw (split-append (method_text m) raw) refl;
    read_reply = λ r v.
        rw
          (split-append (wire words r).result (wire words r).error, is_bit-bit (wire words r).is_ok)
          refl;
  }

  -- Connected to a server at `s`, and no answer will be lost.
  abbrev pub Connected : S → Loop S → Type 0
  Connected s w = (w.server ≡ s) × (w.up ≡ true) × (w.losses ≡ zero)

  -- One exchange of a connected loop.
  loop_lem :
      (m : Method) (p : Params) (raw : Text) (s : S) (w : Loop S)
      → Connected s w
      → plain_json.write_params m p ≡ ok raw
      → let req : Request = record { method = method_text m; params = raw } in
        let out = handle be plain_codec host 1 (request_text req ∷ []) s in
        ((loop.encode req w).0 ≡ none)
        × ((loop.scan (loop.encode req w).1).0 ≡ first_line response_text out.0)
        × Connected out.1 (loop.scan (loop.encode req w).1).1
  loop_lem m p raw s w at written =
      rw
        (
          at.0,
          at.1,
          at.2,
          handle_one be plain_codec host words loop plain_json loop-Lines m p raw s written,
        )
        (refl, refl, (refl, refl, refl))

  pub loop-Carries : Carries be plain_codec host words loop plain_json loop-Lines Connected
  loop-Carries = record {
    fits = λ t. true;
    sent = λ m p raw s w at written f. (loop_lem m p raw s w at written).0;
    carried = λ m p raw s w at written f g.
        let step = loop_lem m p raw s w at written in (step.1, step.2);
  }

  pub loop_fits : (t : Text) → loop-Carries.fits t ≡ true
  unfolding loop-Carries
  loop_fits t = refl

  -- A connected loop that loses its first answer.
  abbrev pub lossy : S → Loop S
  lossy s = record { server = s; waiting = none; up = true; losses = 1 }

  pub lossy-AnswerLost :
      (m : Method) (p : Params) (raw : Text) (s : S)
      → plain_json.write_params m p ≡ ok raw
      → AnswerLost be plain_codec host words loop plain_json loop-Lines Connected loop-Carries m raw
          s
          (lossy s)
  lossy-AnswerLost m p raw s written =
      let req : Request = record { method = method_text m; params = raw } in
      let out = handle be plain_codec host 1 (request_text req ∷ []) s in
      record {
        after = record { server = out.1; waiting = none; up = false; losses = 0 };
        sent = refl;
        lost = refl;
        redialed = refl;
        back = (
          ap (λ o. o.1)
              (handle_one be plain_codec host words loop plain_json loop-Lines m p raw s written),
          refl,
          refl,
        );
      }

-- ===== src/Examples/Clients.antt =====
-- Examples of the theorems on internal/rpc/client.go.
use nfuse.Base.{true, ok, err, Result, refl, some, [], ◌∷◌}
use nfuse.Base.Text.{Text, codes}
use nfuse.Rpc.{Method, run_method, unmarshal, ok_err, fail}
use nfuse.Rpc.Live.{controller}
use nfuse.Model.{Error}
use nfuse.Rpc.Client.{call, pair_params}
use nfuse.Rpc.Client.Calls.{nothing}
use nfuse.Rpc.Client.Carrying.{Wording, IsWritten, Passes, Served, call_twice}
use nfuse.Examples.{fake}
use nfuse.Examples.Wire.{host, session}
use nfuse.Examples.Plain.{plain_codec, plain_json}
use nfuse.Examples.Loopback.{
  loop, loop-Lines, loop-Carries, loop_fits, Connected, lossy, lossy-AnswerLost,
}

abbrev words : Wording
words = record { of_error = λ e. codes "refused"; quote = λ t. t }

-- The port 1 is moved to the account 2, and the first answer is lost.
abbrev move : Text
move = 1 ∷ 2 ∷ []

ok_err-IsWritten :
    {S : Type 0} (r : Result Error (Unit {0}) × S)
    → IsWritten
        (controller fake)
        plain_codec
        host
        words
        (loop (controller fake) host words)
        plain_json
        (λ t. true)
        (ok_err r).0
unfolding ok_err fail
ok_err-IsWritten (ok x, s) = tt
ok_err-IsWritten (err e, s) = refl

move-Passes :
    Passes
      (controller fake)
      plain_codec
      host
      words
      (loop (controller fake) host words)
      plain_json
      (loop-Lines (controller fake) host words)
      (Connected (controller fake) host words)
      (loop-Carries (controller fake) host words)
      Method.move_port
      move
      (run_method (controller fake) plain_codec host Method.move_port move session).1
unfolding run_method unmarshal
move-Passes = record {
  request_fits = loop_fits (controller fake) host words _;
  answer_fits = loop_fits (controller fake) host words _;
  answer_written = ok_err-IsWritten ((controller fake).move_port 1 2 _);
}

call_twice_example :
    Served
      (controller fake)
      plain_codec
      host
      words
      (loop (controller fake) host words)
      plain_json
      (loop-Lines (controller fake) host words)
      (Connected (controller fake) host words)
      (loop-Carries (controller fake) host words)
      Method.move_port
      nothing
      (run_method
        (controller fake)
        plain_codec
        host
        Method.move_port
        move
        (run_method (controller fake) plain_codec host Method.move_port move session).1)
      (call
        (loop (controller fake) host words)
        plain_json
        Method.move_port
        (some (pair_params 1 2))
        nothing
        (lossy (controller fake) host words session))
call_twice_example =
    call_twice (controller fake) plain_codec host words (loop (controller fake) host words)
      plain_json (loop-Lines (controller fake) host words) (Connected (controller fake) host words)
      (loop-Carries (controller fake) host words) Method.move_port (pair_params 1 2) move nothing
      session (lossy (controller fake) host words session)
      (lossy-AnswerLost (controller fake) host words Method.move_port (pair_params 1 2) move session
        refl)
      refl move-Passes

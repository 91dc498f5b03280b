-- ===== src/Examples/Wire.antt =====
-- Examples of the theorems on internal/rpc/server.go, internal/httpapi/httpapi.go and
-- internal/cli/commands.go.
use nfuse.Base.{ℕ, ◌≡◌, ◌⊎◌, refl, true, false, some, List, [], ◌∷◌, arith, ok}
use nfuse.Base.Int.{pos}
use nfuse.Base.Text.{Text, codes, text_eq, trim_space, trim_left, is_space}
use nfuse.Base.Float64.{Float64, fin}
use nfuse.Model.{valid_range}
use nfuse.Engine.Views.{AccountView, Grant, view_locked, query_by_token}
use nfuse.Engine.Access.{IsHeld}
use nfuse.Engine.Invariant.{Inv}
use nfuse.Nft.{port_text}
use nfuse.Rpc.{IntervalParams, Codec, Host, handle}
use nfuse.Rpc.Keeping.{ReadsUint16}
use nfuse.Rpc.Live.{Session, controller, handle-Inv}
use nfuse.HttpApi.{
  HttpRequest, answer, path_token, drop_slashes, trim_end, first_segment, render_views,
  query_format,
}
use nfuse.HttpApi.Queries.{answer_sound}
use nfuse.Cli.{parse_port_spec, resolve_account, resolve_trimmed, pick, named}
use nfuse.Cli.Intervals.{parse_port_spec-port_text}
use nfuse.Examples.{fake, running, controller_on, controller_on-Inv, calm, web, alice}

abbrev ssh : IntervalParams
ssh = record { id = 2; start = 22; end = 0 }

-- A codec that takes a line for a method name, and reads the same parameters whatever they are.
abbrev pub fixed : Codec
fixed = record {
  read_request = λ line. ok (record { method = line; params = codes "{}" });
  read_new_account = λ raw. ok (record {
    key = codes "carol";
    tier = codes "c";
    limit_gib = fin false 0 (pos 0);
    anchor_day = pos 1;
  });
  read_tier = λ raw.
      ok
        (record { key = 1; tier = codes "c"; limit_gib = fin false 0 (pos 0); anchor_day = pos 1 });
  read_delete = λ raw. ok (2, false);
  read_interval = λ method raw. ok ssh;
  read_id = λ method raw. ok 1;
  read_pair = λ method raw. ok (1, 2);
  read_expiry = λ raw. ok (1, pos 5000);
  write_result = λ p. ok (codes "{}");
}

fixed-ReadsUint16 : ReadsUint16 fixed
fixed-ReadsUint16 method raw p e = ground (arith, e)

abbrev pub host : Host
host = record {
  iface = codes "eth0";
  kernel_ok = true;
  kernel_version = codes "6.1";
  seconds_since = λ t. fin false 1 (pos 0);
}

abbrev lines : List Text
lines = codes "AddPort" ∷ [] ∷ codes "ResetAccount" ∷ codes "Unknown" ∷ []

abbrev pub session : Session fake
session = (controller_on running, λ i. calm)

handle-Inv_example : Inv (handle (controller fake) fixed host 2 lines session).1.0
handle-Inv_example =
    handle-Inv fake fixed host fixed-ReadsUint16 2 lines (controller_on running) (λ i. calm)
      (controller_on-Inv running) (λ i. refl)

abbrev no_float : Float64 → ℕ
no_float x = 0

abbrev get_all : HttpRequest
get_all = record { method = codes "GET"; path = codes "/master/"; query = [] }

master_answered :
    (answer no_float (query_by_token fake (controller_on running)) get_all).status ≡ 200
unfolding answer path_token drop_slashes trim_end first_segment text_eq query_by_token
master_answered = refl

answer_sound_example :
    (g : Grant) × ((answer no_float (query_by_token fake (controller_on running)) get_all).body
      ≡ render_views no_float (query_format get_all) g.0)
    × ((path_token (codes "/master/") ≡ codes "master")
          × (g ≡ (view_locked fake (controller_on running), true))
        ⊎ IsHeld (path_token (codes "/master/")) (controller_on running).snap.accounts g)
answer_sound_example = answer_sound no_float fake (controller_on running) get_all master_answered

parse_port_spec-port_text_example : parse_port_spec (port_text web) ≡ ok (80, 90)
unfolding valid_range
parse_port_spec-port_text_example = parse_port_spec-port_text web refl (omega arith)

abbrev pub alice_view : AccountView
alice_view = record { account = alice; used_bytes = 0; expired = false; ports = [] }

alice_resolved : resolve_account (some (alice_view ∷ []), []) (codes " alice") ≡ ok 1
unfolding resolve_account resolve_trimmed pick named trim_space trim_left is_space text_eq
alice_resolved = refl

-- ===== src/Tests/Client.antt =====
-- The client.
use hyprwire_debian.Base.{true, ◌%◌, ◌^◌, ◌≡◌, ◌<◌, refl, arith, false, none, [], ◌∷◌, length}
use hyprwire_debian.Outcome.{done}
use hyprwire_debian.Message.Generic.Args.{args_bytes, args_fds, arg_bytes, generic_bytes}
use hyprwire_debian.WireObject.RoundTrip.Check.{args_va}
use hyprwire_debian.Server.State
use hyprwire_debian.Server.Socket.{dispatch_client, answer_roundtrip}
use hyprwire_debian.Client.State.{log, sent}
use hyprwire_debian.Client.Dispatch.{roundtrip, returned, call_object, resolve_seq}
use hyprwire_debian.Message.Numbers.{encode_roundtrip_request, encode_roundtrip_done}
use hyprwire_debian.Client.Replies.Runs.{readable}
use hyprwire_debian.Client.Roundtrips.{roundtrip-answered}
use hyprwire_debian.Client.Calls.{call_object-heard}
use hyprwire_debian.Client.Sequences.{resolve_seq-generic_bytes}
use hyprwire_debian.Tests.Data.{
  five, set_five, object_o, offered, object_1, client_1, socket_1, no_text, any_types, five-IsArg,
  five-IsPassed, five-params, object_1-Takes,
}

five-fits : length (generic_bytes 1 0 five) < 2 ^ 63
unfolding generic_bytes args_bytes arg_bytes
five-fits = omega arith

call_object-heard_example :
    (call_object no_text socket_1 object_1 object_o 0 (args_va five)
      ≡ done (log socket_1 (sent (generic_bytes 1 0 five) (args_fds five)), 0))
    × (dispatch_client no_text any_types none offered client_1
          (record { bytes = generic_bytes 1 0 five; fds = args_fds five; bad = false })
        ≡ done (answer_roundtrip (State.log client_1 (State.heard 1 0 five))))
unfolding State.object_for_id
call_object-heard_example =
    call_object-heard no_text any_types none offered socket_1 object_1 object_o 0 five set_five
      client_1 object_1 refl (omega arith) refl (omega arith) refl five-params five-IsArg
      five-IsPassed (omega arith) (omega arith) refl refl object_1-Takes five-fits

resolve_seq-generic_bytes_example :
    resolve_seq 8 (generic_bytes 0 0 five) ≡ generic_bytes (8 % 256) 0 five
resolve_seq-generic_bytes_example = resolve_seq-generic_bytes 8 0 five

roundtrip-answered_example :
    (dispatch_client no_text any_types none offered client_1
        (record { bytes = encode_roundtrip_request 1; fds = []; bad = false })
      ≡ done (record (State.log client_1 (State.sent (encode_roundtrip_done 1) [])) {
        scheduled_roundtrip_seq = 0;
      }))
    × (roundtrip no_text any_types socket_1 (readable (encode_roundtrip_done 1) ∷ [])
        ≡ done (
            returned
              (record (log socket_1 (sent (encode_roundtrip_request 1) [])) {
                last_sent_roundtrip_seq = 1;
                last_ackd_roundtrip_seq = 1;
              })
              true))
roundtrip-answered_example =
    roundtrip-answered no_text any_types none offered socket_1 client_1 1 refl refl refl
      (omega arith) (omega arith) (omega arith) refl refl

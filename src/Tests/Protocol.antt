-- ===== src/Tests/Protocol.antt =====
-- The client and the server together, from the handshake to calls.
use hyprwire_debian.Base.{◌≡◌, ◌≤◌, refl, arith, true, false, none, some, [], ◌∷◌, map}
use hyprwire_debian.Outcome.{done}
use hyprwire_debian.Wire.Decimal.{decimal, decimal_digits}
use hyprwire_debian.VarInt.{encode_var_int}
use hyprwire_debian.Message.Hello.{encode_hello, bytes_eq}
use hyprwire_debian.Message.Handshake.{
  encode_handshake_begin, encode_handshake_ack, encode_handshake_protocols, texts_bytes, text_bytes,
}
use hyprwire_debian.Message.BindProtocol.{encode_bind_protocol}
use hyprwire_debian.Message.Numbers.{encode_new_object}
use hyprwire_debian.Message.Generic.Args.{args_bytes, arg_bytes, generic_bytes}
use hyprwire_debian.WireObject.Spec.{WireObject}
use hyprwire_debian.Server.State
use hyprwire_debian.Server.State.{Implementation, new_client, ServerClient, find_impl, find_object}
use hyprwire_debian.Server.Parser.{protocol_text}
use hyprwire_debian.Server.Requests
use hyprwire_debian.Server.Socket.{dispatch_client}
use hyprwire_debian.Client.State.{
  ClientSocket, new_socket, object_for_seq, object_for_id, set_id, log, heard, sent,
}
use hyprwire_debian.Client.Operations.{greet, send_message, bind_protocol, on_seq}
use hyprwire_debian.Client.Parser.{contains}
use hyprwire_debian.Client.Dispatch.{
  Polled, returned, waiting, dispatch_events, flush, flush_pending, wait_for_handshake,
  wait_for_object, wait_for_roundtrip,
}
use hyprwire_debian.Client.Replies
use hyprwire_debian.Client.Replies.{new_object, event, numbered, delivered, next, finished}
use hyprwire_debian.Client.Replies.Runs.{
  readable, arriving, dispatch_events-one, dispatch_events-Run,
}
use hyprwire_debian.Client.Handshakes.{
  raw_of, begun, told, greeting, agreeing, informed, handshake-agreed, handshake-refused,
}
use hyprwire_debian.Client.Hangups.{waits-hangup}
use hyprwire_debian.Client.Binds.{asked, answered_to, numbered_by, bind-answered, bind-numbered}
use hyprwire_debian.Client.Binds.Interleavings.{Pair, asks, serves, learns}
use hyprwire_debian.Client.Binds.Interleavings.Moves.{Moves, started, moved, Serves, Moves-Serves}
use hyprwire_debian.Client.Deferred.{deferred, sent_to, request_to, heard_at, deferred-heard}
use hyprwire_debian.Client.Objects.Binds.{asked_for, bind_protocol-asking}
use hyprwire_debian.Client.Objects.History.{
  constructed, later, connects, binds, History, History-found,
}
use hyprwire_debian.Tests.Data.{
  five, object_o, protocol_p, offered, object_1, client_1, socket_1, no_text, any_types, five-IsArg,
  object_1-Takes, object_8, socket_t, object_8-Takes,
}

found_8 : object_for_id 8 (on_seq socket_t 1 8).objects ≡ some object_8
unfolding object_for_id on_seq set_id
found_8 = refl

dispatch_events-Run_example :
    dispatch_events no_text any_types socket_t (arriving (new_object 1 8 ∷ event 8 0 five ∷ []))
    ≡ done (flush_pending (log (on_seq socket_t 1 8) (heard 8 0 five)), true)
unfolding Replies.stream_bytes Replies.reply_bytes encode_new_object generic_bytes args_bytes
    arg_bytes on_seq
dispatch_events-Run_example =
    dispatch_events-Run no_text any_types socket_t (new_object 1 8) (event 8 0 five ∷ [])
      (log (on_seq socket_t 1 8) (heard 8 0 five)) refl
      (next numbered (next (delivered {obj = object_8} found_8 object_8-Takes) finished))
      ((omega arith, omega arith), ((omega arith, omega arith, five-IsArg), tt)) (omega arith)

handshake-agreed_example :
    (dispatch_client no_text any_types none offered (new_client true) (raw_of encode_hello)
      ≡ done (begun none (new_client true)))
    × (dispatch_client no_text any_types none offered
          (begun none (new_client true))
          (raw_of (encode_handshake_ack 1))
        ≡ done (told offered (begun none (new_client true))))
    × (wait_for_handshake no_text any_types (greet new_socket true) (
          readable (encode_handshake_begin (1 ∷ []))
          ∷ readable (encode_handshake_protocols (map protocol_text offered))
          ∷ [])
        ≡ done (returned (informed offered (agreeing (greeting new_socket))) true))
unfolding protocol_text decimal decimal_digits encode_handshake_protocols texts_bytes text_bytes
    encode_var_int
handshake-agreed_example =
    handshake-agreed no_text any_types none offered new_socket (new_client true) refl refl refl refl
      refl refl (omega arith) (omega arith) (omega arith) (omega arith)

handshake-refused_example :
    wait_for_handshake no_text any_types
      (greet new_socket true)
      (readable (encode_handshake_begin (2 ∷ [])) ∷ [])
    ≡ done (returned (record (greeting new_socket) { error = true; valid = false }) false)
unfolding contains
handshake-refused_example =
    handshake-refused no_text any_types new_socket (2 ∷ []) [] refl refl (omega arith) (omega arith)
      refl

abbrev socket_0 : ClientSocket
socket_0 = record new_socket { valid = true; handshake_done = true }

bind-numbered_example :
    (bind_protocol socket_0 protocol_p 1
      ≡ done
          (asked socket_0 protocol_p object_o 1, some (asked_for socket_0 protocol_p object_o 1)))
    × (dispatch_client no_text any_types none offered
          (new_client true)
          (raw_of (encode_bind_protocol (b'p' ∷ []) 1 1))
        ≡ done (
            answered_to
              (new_client true)
              (record { protocol = protocol_p; implementation = (b'o' ∷ [], true) ∷ [] })
              object_o
              (b'p' ∷ [])
              1
              1))
    × (wait_for_object no_text any_types
          (asked socket_0 protocol_p object_o 1)
          0
          (readable (encode_new_object 1 1) ∷ [])
        ≡ done (returned (numbered_by 1 socket_0 protocol_p object_o 1) true))
unfolding find_impl find_object bytes_eq encode_bind_protocol encode_var_int text_bytes
bind-numbered_example =
    bind-numbered no_text any_types none offered socket_0 (new_client true) protocol_p 1 object_o []
      (record { protocol = protocol_p; implementation = (b'o' ∷ [], true) ∷ [] }) object_o refl refl
      refl (omega arith) (omega arith) refl (omega arith) (omega arith) (omega arith) (omega arith)
      refl refl refl (omega arith) (omega arith) refl refl (omega arith) (omega arith)

-- The object of a bind whose number is not known, and a call that waits for it.
abbrev object_0 : WireObject
object_0 = record object_1 { id = 0 }

abbrev waiting_0 : ClientSocket
waiting_0 = record socket_1 {
  objects = object_0 ∷ [];
  pending_outgoing = deferred 1 (0, five) ∷ [];
}

deferred-heard_example :
    (dispatch_events no_text any_types waiting_0 (readable (encode_new_object 1 1))
      ≡ done (
        record (on_seq waiting_0 1 1) {
          pending_outgoing = [];
          trace = map (sent_to 1) ((0, five) ∷ []);
        },
        true,
      ))
    × (dispatch_client no_text any_types none offered client_1 (record {
      bytes = Requests.stream_bytes (map (request_to 1) ((0, five) ∷ []));
      fds = Requests.stream_fds (map (request_to 1) ((0, five) ∷ []));
      bad = false;
    })
        ≡ done (record client_1 { trace = map (heard_at 1) ((0, five) ∷ []) }))
unfolding object_for_seq State.object_for_id Requests.stream_bytes Requests.request_bytes
    generic_bytes args_bytes arg_bytes
deferred-heard_example =
    deferred-heard no_text any_types none offered waiting_0 client_1 object_0 object_1 1 1 (0, five)
      [] refl refl refl refl (omega arith) (omega arith) (omega arith)
      (((omega arith), five-IsArg), tt) refl refl refl (object_1-Takes, tt) (omega arith)

-- A client that connected and bound "p".
bound_p : History no_text any_types (asked (greet new_socket true) protocol_p object_o 1)
unfolding greet send_message
bound_p = later (later constructed (connects true)) (
    binds protocol_p 1 (omega arith) (
      bind_protocol-asking (greet new_socket true) protocol_p 1 object_o [] (omega arith)
        (omega arith) refl))

History-found_example :
    (1 ≤ 1)
    × (object_for_seq 1 (asked (greet new_socket true) protocol_p object_o 1).objects
        ≡ some (asked_for (greet new_socket true) protocol_p object_o 1))
unfolding greet send_message
History-found_example =
    History-found no_text any_types (asked (greet new_socket true) protocol_p object_o 1) 0
      (asked_for (greet new_socket true) protocol_p object_o 1) bound_p refl

abbrev hangup : Polled
hangup = record {
  timed_out = false;
  pollhup = true;
  pollin = false;
  raw = record { bytes = []; fds = []; bad = false };
}

waits-hangup_example :
    (wait_for_handshake no_text any_types new_socket (hangup ∷ hangup ∷ [])
      ≡ done (returned new_socket false))
    × (wait_for_roundtrip no_text any_types waiting_0 1 (hangup ∷ hangup ∷ [])
        ≡ done (returned waiting_0 false))
    × (wait_for_object no_text any_types waiting_0 0 (hangup ∷ hangup ∷ [])
        ≡ done (waiting waiting_0))
waits-hangup_example =
    waits-hangup no_text any_types new_socket waiting_0 0 1 hangup (hangup ∷ []) refl refl refl refl
      (omega arith) (refl, (refl, tt))

-- "p" is bound, its object is made, and the client reads the number.
abbrev impl_p : Implementation
impl_p = record { protocol = protocol_p; implementation = (b'o' ∷ [], true) ∷ [] }

abbrev asked_p : ClientSocket
asked_p = asked socket_0 protocol_p object_o 1

abbrev object_p : WireObject
object_p = record (asked_for socket_0 protocol_p object_o 1) { id = 1 }

abbrev before_p : Pair
before_p = record { client = socket_0; server = new_client true; up = []; down = [] }

abbrev after_p : Pair
after_p = record {
  client = flush_pending (on_seq asked_p 1 1);
  server = answered_to (new_client true) impl_p object_o (b'p' ∷ []) 1 1;
  up = [];
  down = [];
}

learned_p :
    dispatch_events no_text any_types asked_p (readable (encode_new_object 1 1))
    ≡ done (flush_pending (on_seq asked_p 1 1), true)
unfolding Replies.reply_bytes Replies.reply_fds encode_new_object on_seq
learned_p =
    dispatch_events-one no_text any_types asked_p (new_object 1 1) (on_seq asked_p 1 1)
      (encode_new_object 1 1) refl numbered (omega arith, omega arith) refl refl (omega arith)

moves_p : Moves no_text any_types none offered before_p after_p
unfolding send_message find_impl find_object bytes_eq encode_bind_protocol encode_var_int text_bytes
    encode_new_object State.binds flush_pending flush on_seq
moves_p =
    moved
      (moved
        (moved started (
          asks protocol_p 1 asked_p (asked_for socket_0 protocol_p object_o 1)
            (sent (encode_bind_protocol (b'p' ∷ []) 1 1) [] ∷ []) (omega arith) (omega arith)
            (omega arith) (omega arith) (omega arith)
            (bind_protocol-asking socket_0 protocol_p 1 object_o [] (omega arith) (omega arith)
              refl)
            refl))
        (serves (encode_bind_protocol (b'p' ∷ []) 1 1) []
          (answered_to (new_client true) impl_p object_o (b'p' ∷ []) 1 1)
          (State.sent (encode_new_object 1 1) [] ∷ State.bound 1 ∷ []) refl refl
          (bind-answered no_text any_types none offered (new_client true) (b'p' ∷ []) 1 1 impl_p
            object_o refl refl refl (omega arith) (omega arith) (omega arith) (omega arith) refl
            refl (omega arith) (omega arith))
          refl))
      (learns (encode_new_object 1 1) [] (flush_pending (on_seq asked_p 1 1)) true [] refl refl
        learned_p refl)

Moves-Serves_example :
    Serves (answered_to (new_client true) impl_p object_o (b'p' ∷ []) 1 1) object_p
unfolding flush_pending flush on_seq set_id
Moves-Serves_example =
    Moves-Serves no_text any_types none offered before_p after_p 0 object_p refl refl refl refl
      (tt, refl) refl moves_p (omega arith) refl (omega arith)

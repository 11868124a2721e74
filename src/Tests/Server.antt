-- ===== src/Tests/Server.antt =====
-- The server and the calls.
use hyprwire_debian.Base.{
  ◌+◌, ◌-◌, ◌^◌, ◌≡◌, ◌<◌, refl, arith, true, false, none, some, List, [], ◌∷◌, ◌++◌, length,
}
use hyprwire_debian.Outcome.{done}
use hyprwire_debian.Message.FatalError.{encode_fatal_error}
use hyprwire_debian.Message.Numbers.{encode_roundtrip_request}
use hyprwire_debian.Message.Generic.Args.{args_bytes, args_fds, arg_bytes, generic_bytes}
use hyprwire_debian.WireObject.Spec.{has_listener}
use hyprwire_debian.WireObject.Marshal.{message, call}
use hyprwire_debian.WireObject.Demarshal.{Span, called, invoked, wire_params}
use hyprwire_debian.WireObject.RoundTrip.Check.{args_va, args_params, arg_params}
use hyprwire_debian.WireObject.RoundTrip.EndToEnd.{call-args, called-args, sent_args}
use hyprwire_debian.Server.State.{ServerClient, log, heard, find_impl, object_for_id}
use hyprwire_debian.Message.Hello.{encode_hello}
use hyprwire_debian.Server.Client.{create_object, dispatch_first_poll, send_message}
use hyprwire_debian.Message.Handshake.{encode_handshake_begin}
use hyprwire_debian.Server.Polls.{IsPolled, clients-IsPolled}
use hyprwire_debian.Server.Socket.{
  ServerSocket, Polled, recheck_poll_fds, internal_fds, attempt_empty, add_client, remove_client,
  dispatch_new_connections, dispatch_existing_connections, dispatch_clients, without_errors,
  dispatch_client, answer_roundtrip, failed_text,
}
use hyprwire_debian.Server.Requests.{
  Request, hello, invoke, roundtrip, Run, next, finished, greeted, delivered, asked, stream_bytes,
  stream_fds, request_bytes,
}
use hyprwire_debian.Server.Requests.Runs.{dispatch_client-Run}
use hyprwire_debian.Server.Objects.{IsNumbered}
use hyprwire_debian.Server.Objects.Dispatch.{dispatch_client-IsNumbered}
use hyprwire_debian.Server.Errors.{no_protocol, dispatch_client-refuses, create_object-Lacks}
use hyprwire_debian.Tests.Data.{
  five, set_five, offered, object_1, client_1, no_text, any_types, five-IsArg, five-IsPassed,
  five-params, object_1-Takes,
}

-- A greeting, a call and a roundtrip.
abbrev session : List Request
session = hello ∷ invoke 1 0 five ∷ roundtrip 7 ∷ []

abbrev greeted_client : ServerClient
greeted_client =
    send_message (dispatch_first_poll (some 42) client_1) (encode_handshake_begin (1 ∷ [])) []

abbrev asked_client : ServerClient
asked_client = record (log greeted_client (heard 1 0 five)) { scheduled_roundtrip_seq = 7 }

session-Run : Run any_types (some 42) offered client_1 session asked_client
unfolding dispatch_first_poll send_message object_for_id
session-Run =
    next refl greeted
      (next refl (delivered {obj = object_1} refl object_1-Takes) (next refl asked finished))

session-fits : length (stream_bytes session) < 2 ^ 63
unfolding stream_bytes request_bytes encode_hello generic_bytes args_bytes arg_bytes
    encode_roundtrip_request
session-fits = omega arith

dispatch_client-Run_session :
    dispatch_client no_text any_types
      (some 42)
      offered
      client_1
      (record { bytes = stream_bytes session; fds = stream_fds session; bad = false })
    ≡ done (answer_roundtrip asked_client)
dispatch_client-Run_session =
    dispatch_client-Run no_text any_types (some 42) offered client_1 hello
      (invoke 1 0 five ∷ roundtrip 7 ∷ []) asked_client session-Run
      (tt, ((omega arith, omega arith, five-IsArg), (omega arith, tt))) session-fits

dispatch_client-Run_example :
    dispatch_client no_text any_types
      (some 42)
      offered
      client_1
      (record { bytes = stream_bytes session; fds = stream_fds session; bad = false })
    ≡ done (answer_roundtrip asked_client)
dispatch_client-Run_example =
    dispatch_client-Run no_text any_types (some 42) offered client_1 hello
      (invoke 1 0 five ∷ roundtrip 7 ∷ []) asked_client session-Run
      (tt, ((omega arith, omega arith, five-IsArg), (omega arith, tt))) session-fits

call-args_example :
    call false (set_five ∷ []) object_1 0 (args_va five) 9
    ≡ done (message (generic_bytes 1 0 (sent_args set_five 9 five)) (args_fds five) 0)
call-args_example =
    call-args false (set_five ∷ []) object_1 0 9 five set_five refl (omega arith) (λ e. refl)
      five-params five-IsArg five-IsPassed

abbrev five_span : Span
five_span = record { mem = args_bytes five ++ 0 ∷ 9 ∷ []; size = length (args_bytes five) + 1 }

called-args_example :
    called any_types 2 (set_five ∷ []) object_1 0 five_span (args_fds five) ≡ done (invoked five)
unfolding has_listener wire_params args_params arg_params args_bytes arg_bytes
called-args_example =
    called-args any_types 2 (set_five ∷ []) object_1 0 five_span five (9 ∷ []) set_five refl refl
      (omega arith) refl refl five-IsArg (omega arith) (omega arith) (omega arith) refl

client_1-IsNumbered : IsNumbered client_1
client_1-IsNumbered = ((refl, tt), refl)

dispatch_client-IsNumbered_example : IsNumbered (answer_roundtrip asked_client)
dispatch_client-IsNumbered_example =
    dispatch_client-IsNumbered no_text any_types (some 42) offered client_1
      (record { bytes = stream_bytes session; fds = stream_fds session; bad = false })
      (answer_roundtrip asked_client) client_1-IsNumbered dispatch_client-Run_session

create_object-Lacks_example :
    ((create_object [] client_1 (112 ∷ []) [] 1 4).1 ≡ none)
    × ((create_object [] client_1 (112 ∷ []) [] 1 4).0.error ≡ true)
    × ((create_object [] client_1 (112 ∷ []) [] 1 4).0.trace ≡ [])
unfolding find_impl
create_object-Lacks_example = create_object-Lacks [] client_1 (112 ∷ []) [] 1 4 (no_protocol refl)

dispatch_client-refuses_example :
    dispatch_client no_text any_types none offered client_1
      (record { bytes = 2 ∷ 1 ∷ []; fds = []; bad = false })
    ≡ done (record (send_message client_1 (encode_fatal_error none (2 ^ 32 - 1) failed_text) []) {
      error = true;
    })
dispatch_client-refuses_example =
    dispatch_client-refuses no_text any_types none offered client_1 2 (1 ∷ []) [] refl refl

-- A listening server with one client.
abbrev server_1 : ServerSocket
server_1 = record {
  fd = some 3;
  exit_fd = some 4;
  wakeup_fd = some 5;
  is_empty_listener = false;
  impls = offered;
  clients = (record { fd = some 6; state = client_1 }) ∷ [];
  wakeup_writes = 0;
  pollfds = some 3 ∷ some 4 ∷ some 5 ∷ some 6 ∷ [];
}

server_1-IsPolled : IsPolled server_1
unfolding internal_fds
server_1-IsPolled = record { listens = λ e. refl; exits = refl; wakes = refl; serves = refl }

clients-IsPolled_example :
    IsPolled (attempt_empty server_1)
    × IsPolled (add_client server_1 (some 7) true).0
    × IsPolled (remove_client server_1 6).0
    × IsPolled (dispatch_new_connections server_1 true (some 7)).0
clients-IsPolled_example = clients-IsPolled server_1 (some 7) true true 6 server_1-IsPolled

-- The client sends something that cannot be read, and hangs up.
abbrev hang_up : Polled
hang_up = record {
  pollin = true;
  pollhup = true;
  raw = record { bytes = []; fds = []; bad = true };
}

hang_up-removes :
    dispatch_existing_connections no_text any_types (λ c. none) server_1 (hang_up ∷ [])
    ≡ done (recheck_poll_fds (record server_1 { clients = [] }), true)
unfolding dispatch_existing_connections dispatch_clients dispatch_client without_errors
hang_up-removes = refl

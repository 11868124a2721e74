-- ===== src/Tests/Events.antt =====
-- Calls of a server's objects, and of objects that a call returned.
use hyprwire_debian.Base.{◌≡◌, ◌<◌, ◌^◌, refl, arith, true, some, [], ◌∷◌, length}
use hyprwire_debian.Outcome.{done}
use hyprwire_debian.Message.Hello.{bytes_eq}
use hyprwire_debian.Message.Generic.Args.{args_bytes, args_fds, arg_bytes, generic_bytes}
use hyprwire_debian.WireObject.Spec.{Method, ObjectSpec, WireObject, fresh}
use hyprwire_debian.WireObject.RoundTrip.Check.{args_va}
use hyprwire_debian.Server.State
use hyprwire_debian.Server.State.{log, sent}
use hyprwire_debian.Server.Calls
use hyprwire_debian.Server.Calls.Events.{delivery, call_object-delivered}
use hyprwire_debian.Client.State as CState
use hyprwire_debian.Client.State.{ClientSocket, object_for_id}
use hyprwire_debian.Client.Operations.{make_object, find_spec, find_named}
use hyprwire_debian.Client.Dispatch.{dispatch_events, call_object}
use hyprwire_debian.Client.Versions.{call_object-returned}
use hyprwire_debian.Tests.Data.{
  five, set_five, object_t, object_8, socket_t, client_1, protocol_p, no_text, any_types,
  five-IsArg, five-IsPassed, five-params, object_8-Takes,
}

abbrev socket_8 : ClientSocket
socket_8 = record socket_t { objects = object_8 ∷ [] }

eight-fits : length (generic_bytes 8 0 five) < 2 ^ 63
unfolding generic_bytes args_bytes arg_bytes
eight-fits = omega arith

call_object-delivered_example :
    (Calls.call_object no_text (some client_1) object_8 object_t 0 (args_va five)
      ≡ done (some (State.log client_1 (State.sent (generic_bytes 8 0 five) (args_fds five)))))
    × (dispatch_events no_text any_types socket_8 (delivery 8 0 five)
        ≡ done (CState.log socket_8 (CState.heard 8 0 five), true))
unfolding object_for_id
call_object-delivered_example =
    call_object-delivered no_text any_types client_1 object_8 object_t 0 five set_five socket_8
      object_8 refl refl (omega arith) refl five-params five-IsArg five-IsPassed (omega arith)
      (omega arith) refl refl refl object_8-Takes eight-fits

-- A method of a later version, and a client that knows the protocol.
abbrev newer : Method
newer = record set_five { since = 2 }

abbrev object_n : ObjectSpec
object_n = record { object_name = b'o' ∷ []; c2s = newer ∷ []; s2c = [] }

abbrev knowing : ClientSocket
knowing = record socket_8 { impls = record protocol_p { objects = object_n ∷ [] } ∷ [] }

abbrev returned_n : WireObject
returned_n = record fresh { protocol_name = b'p' ∷ []; spec = some object_n; seq = 2 }

call_object-returned_example :
    call_object no_text knowing returned_n object_n 0 (args_va five) ≡ done (knowing, 0)
unfolding make_object find_spec find_named bytes_eq
call_object-returned_example =
    call_object-returned no_text knowing (record knowing { objects = object_8 ∷ returned_n ∷ [] })
      knowing (b'p' ∷ []) (b'o' ∷ []) 2 returned_n object_n 0 (args_va five) newer refl refl
      (omega arith)

-- ===== src/Tests/Data.antt =====
-- One protocol, "p" in version 1, with one object, "o", whose method 0 takes a UINT.
use hyprwire_debian.Base.{ℕ, Bool, true, some, List, [], ◌∷◌, ◌≡◌, refl, arith, All}
use hyprwire_debian.Message.Generic.Args.{Arg, word, IsArg}
use hyprwire_debian.Wire.Magic.{is_word}
use hyprwire_debian.WireObject.Spec.{
  Method, ObjectSpec, ProtocolSpec, WireObject, Refusal, has_listener,
}
use hyprwire_debian.WireObject.Marshal.{is_plain}
use hyprwire_debian.WireObject.Demarshal.{FfiType, wire_params}
use hyprwire_debian.WireObject.RoundTrip.Check.{IsPassed, args_params, arg_params}
use hyprwire_debian.Server.State.{Implementation, ServerClient, new_client}
use hyprwire_debian.Server.Requests.{Takes}
use hyprwire_debian.Client.State.{ClientSocket, new_socket}
use hyprwire_debian.Client.Replies

abbrev pub five : List Arg
five = word 0x10 5 ∷ []

abbrev pub set_five : Method
set_five = record { idx = 0; params = 0x10 ∷ []; returns_type = []; since = 0 }

abbrev pub object_o : ObjectSpec
object_o = record { object_name = b'o' ∷ []; c2s = set_five ∷ []; s2c = [] }

abbrev pub protocol_p : ProtocolSpec
protocol_p = record { spec_name = b'p' ∷ []; spec_ver = 1; objects = object_o ∷ [] }

abbrev pub offered : List Implementation
offered = record { protocol = protocol_p; implementation = (b'o' ∷ [], true) ∷ [] } ∷ []

abbrev pub object_1 : WireObject
object_1 = record {
  listeners = true ∷ [];
  id = 1;
  version = 1;
  seq = 1;
  protocol_name = b'p' ∷ [];
  spec = some object_o;
}

abbrev pub client_1 : ServerClient
client_1 = record (new_client true) { max_id = 2; objects = object_1 ∷ [] }

abbrev pub socket_1 : ClientSocket
socket_1 = record new_socket {
  valid = true;
  handshake_done = true;
  seq = 1;
  objects = object_1 ∷ [];
}

abbrev pub no_text : Refusal → List ℕ
no_text r = []

abbrev pub any_types : List FfiType → Bool
any_types ts = true

pub five-IsArg : All IsArg five
unfolding is_word
five-IsArg = ((refl, omega arith), tt)

pub five-IsPassed : All IsPassed five
unfolding is_plain
five-IsPassed = (refl, tt)

pub five-params : set_five.params ≡ args_params five
unfolding args_params arg_params
five-params = refl

pub object_1-Takes : Takes any_types object_1 0 five
unfolding has_listener wire_params args_params arg_params
object_1-Takes = record {
  spec = object_o;
  entry = set_five;
  specified = refl;
  found = refl;
  has_one = refl;
  since = omega arith;
  fits = refl;
  prepared = refl;
}

-- The object "t", which has the event that "o" has as a method.
abbrev pub object_t : ObjectSpec
object_t = record { object_name = b't' ∷ []; c2s = []; s2c = set_five ∷ [] }

abbrev pub object_8 : WireObject
object_8 = record object_1 { id = 8; spec = some object_t }

abbrev pub socket_t : ClientSocket
socket_t = record socket_1 { objects = record object_1 { spec = some object_t } ∷ [] }

pub object_8-Takes : Replies.Takes any_types object_8 0 five
unfolding has_listener wire_params args_params arg_params
object_8-Takes = record {
  spec = object_t;
  entry = set_five;
  specified = refl;
  found = refl;
  has_one = refl;
  since = omega arith;
  fits = refl;
  prepared = refl;
}

-- ===== src/Server/State.antt =====
-- The fields of CServerClient (src/core/server/ServerClient.hpp) and the implementations that a
-- server offers (include/hyprwire/core/implementation/ServerImpl.hpp).
use hyprwire_debian.Base.{
  ℕ, Bool, false, ◌||◌, Option, none, some, List, [], ◌∷◌, ◌++◌, ◌==◌, if◌then◌else◌,
}
use hyprwire_debian.Message.Generic.Args.{Arg}
use hyprwire_debian.Message.Hello.{bytes_eq}
use hyprwire_debian.WireObject.Spec.{ProtocolSpec, ObjectSpec, WireObject, is_empty}

-- IProtocolServerImplementation: the protocol, and for each SServerObjectImplementation its object's
-- name and whether it has an `onBind`.
pub record Implementation : Type 0 where
  pub protocol : ProtocolSpec
  pub implementation : List (List ℕ × Bool)

-- What a client's socket and the program around the server see, in order: a message that goes to
-- `sendmsg`, an `onBind` that is called with an object, a listener that is called. What these
-- functions of the program do in turn is outside of the model.
pub data Event : Type 0 where
  sent : List ℕ → List ℕ → Event
  bound : ℕ → Event
  heard : ℕ → ℕ → List Arg → Event

-- `valid` is `m_fd.isValid()`, and a pid of -1 is `none`. The objects are shared with the program,
-- which changes nothing in them but the listeners.
pub record ServerClient : Type 0 where
  pub valid : Bool
  pub pid : Option ℕ
  pub first_poll_done : Bool
  pub version : ℕ
  pub max_id : ℕ
  pub error : Bool
  pub scheduled_roundtrip_seq : ℕ
  pub objects : List WireObject
  pub trace : List Event

-- CServerClient(fd)
abbrev pub new_client : Bool → ServerClient
new_client valid = record {
  valid = valid;
  pid = none;
  first_poll_done = false;
  version = 0;
  max_id = 1;
  error = false;
  scheduled_roundtrip_seq = 0;
  objects = [];
  trace = [];
}

abbrev pub log : ServerClient → Event → ServerClient
log c e = record c { trace = c.trace ++ e ∷ [] }

-- The first protocol of a name.
unfoldable pub find_impl : List ℕ → List Implementation → Option Implementation
find_impl name [] = none
find_impl name (p ∷ ps) = if bytes_eq p.protocol.spec_name name then some p else find_impl name ps

-- The first object of a name, or the first of all where no name is given.
unfoldable pub find_object : List ℕ → List ObjectSpec → Option ObjectSpec
find_object name [] = none
find_object name (s ∷ ss) =
    if is_empty name || bytes_eq s.object_name name then some s else find_object name ss

-- Whether the first entry of a name has an `onBind`.
unfoldable pub binds : List ℕ → List (List ℕ × Bool) → Bool
binds name [] = false
binds name ((n, on) ∷ ons) = if bytes_eq n name then on else binds name ons

-- The first object of a number.
unfoldable pub object_for_id : ℕ → List WireObject → Option WireObject
object_for_id id [] = none
object_for_id id (o ∷ os) = if o.id == id then some o else object_for_id id os

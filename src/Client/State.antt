-- ===== src/Client/State.antt =====
-- The fields of CClientSocket (src/core/client/ClientSocket.hpp).
use hyprwire_debian.Base.{
  ℕ, Bool, false, Option, none, some, List, [], ◌∷◌, ◌++◌, ◌==◌, if◌then◌else◌,
}
use hyprwire_debian.Message.Generic.Args.{Arg}
use hyprwire_debian.Message.Hello.{bytes_eq}
use hyprwire_debian.WireObject.Spec.{ProtocolSpec, WireObject}

-- A message that waits in `m_pendingOutgoing` for the number of the object that it is for.
pub record Pending : Type 0 where
  pub bytes : List ℕ
  pub fds : List ℕ
  pub depends_on_seq : ℕ

-- What the socket and the program around the client see, in order.
pub data Event : Type 0 where
  sent : List ℕ → List ℕ → Event
  heard : ℕ → ℕ → List Arg → Event

-- `valid` is `m_fd.isValid()`. A CServerSpec is its name and version.
pub record ClientSocket : Type 0 where
  pub valid : Bool
  pub impls : List ProtocolSpec
  pub server_specs : List (List ℕ × ℕ)
  pub objects : List WireObject
  pub pending_outgoing : List Pending
  pub error : Bool
  pub handshake_done : Bool
  pub seq : ℕ
  pub last_ackd_roundtrip_seq : ℕ
  pub last_sent_roundtrip_seq : ℕ
  pub trace : List Event

-- A client as it is constructed.
abbrev pub new_socket : ClientSocket
new_socket = record {
  valid = false;
  impls = [];
  server_specs = [];
  objects = [];
  pending_outgoing = [];
  error = false;
  handshake_done = false;
  seq = 0;
  last_ackd_roundtrip_seq = 0;
  last_sent_roundtrip_seq = 0;
  trace = [];
}

abbrev pub log : ClientSocket → Event → ClientSocket
log c e = record c { trace = c.trace ++ e ∷ [] }

-- CClientSocket::objectForId, which onGeneric repeats, and objectForSeq
unfoldable pub object_for_id : ℕ → List WireObject → Option WireObject
object_for_id id [] = none
object_for_id id (o ∷ os) = if o.id == id then some o else object_for_id id os

unfoldable pub object_for_seq : ℕ → List WireObject → Option WireObject
object_for_seq seq [] = none
object_for_seq seq (o ∷ os) = if o.seq == seq then some o else object_for_seq seq os

-- CClientSocket::onSeq: the first object of the sequence number has its number set.
unfoldable pub set_id : ℕ → ℕ → List WireObject → List WireObject
set_id seq id [] = []
set_id seq id (o ∷ os) =
    let rest = set_id seq id os in if o.seq == seq then record o { id = id } ∷ os else o ∷ rest

-- CClientSocket::getSpec
unfoldable pub get_spec : List ℕ → List (List ℕ × ℕ) → Option (List ℕ × ℕ)
get_spec name [] = none
get_spec name (s ∷ ss) = if bytes_eq s.0 name then some s else get_spec name ss

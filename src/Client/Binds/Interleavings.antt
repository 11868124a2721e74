-- ===== src/Client/Binds/Interleavings.antt =====
-- A client and a server with messages on their way between them: the client binds, the server
-- answers, the client reads the answers, in any order.
pub mod Laws
pub mod Moves
pub mod Served
pub mod Steps
use hyprwire_debian.Base.{
  IsU32, ℕ, zero, suc, ◌+◌, ◌%◌, ◌^◌, ◌<◌, ◌≤◌, ◌≡◌, ◌≢◌, refl, arith, Bool, false, Option, none,
  some, List, [], ◌∷◌, ◌++◌, length, All, All-append, ◌==◌, if◌then◌else◌, ◌∙◌, sym, ap,
}
use hyprwire_debian.Outcome.{done}
use hyprwire_debian.WireObject.Spec.{WireObject, ProtocolSpec, get_elem?}
use hyprwire_debian.Server.State.{Implementation, ServerClient}
use hyprwire_debian.Server.Objects.{IsNumbered}
use hyprwire_debian.Server.Creations.{written}
use hyprwire_debian.Server.State
use hyprwire_debian.Message.RoundTrip.Text.{IsShort}
use hyprwire_debian.Server.Requests.{Request, bind}
use hyprwire_debian.Client.State.{ClientSocket, Event, sent, heard, object_for_seq, set_id}
use hyprwire_debian.Client.Operations.{bind_protocol, on_seq}
use hyprwire_debian.Client.Dispatch.{flush_pending}
use hyprwire_debian.Client.Flush.{flush_pending-objects}
use hyprwire_debian.Client.Replies.{Reply, new_object}
use hyprwire_debian.Client.Objects.{
  IsSequenced, Ascending, seqs, Keeps-IsSequenced, object_for_seq-new, on_seq-Keeps,
}
use hyprwire_debian.Client.Objects.Binds.{bind_protocol-IsSequenced}
use hyprwire_debian.WireObject.Spec.{Refusal}
use hyprwire_debian.WireObject.Demarshal.{FfiType}
use hyprwire_debian.Message.BindProtocol.{encode_bind_protocol}
use hyprwire_debian.Message.Numbers.{encode_new_object}
use hyprwire_debian.Server.Requests.{IsRequest}
use hyprwire_debian.Server.Socket.{dispatch_client}
use hyprwire_debian.Server.Client.{create_object}
use hyprwire_debian.Client.Dispatch.{dispatch_events}
use hyprwire_debian.Client.Replies.{IsReply}
use hyprwire_debian.Client.Replies.Runs.{readable}
use hyprwire_debian.Client.Handshakes.{raw_of}

-- The two sides, and the messages that were sent and not read yet, the oldest first.
pub record Pair : Type 0 where
  pub client : ClientSocket
  pub server : ServerClient
  pub up : List (List ℕ)
  pub down : List (List ℕ)

-- The messages that a client sent.
abbrev pub sends : List Event → List (List ℕ)
sends [] = []
sends (sent bytes fds ∷ es) = bytes ∷ sends es
sends (heard id method args ∷ es) = sends es

-- One thing that happens: bindProtocol on the client up to where it waits, the server's dispatch of
-- the oldest message, or the client's. What a side sends then, as its trace has it, is on its way.
pub data Move (describe : Refusal → List ℕ) (prep_cif : List FfiType → Bool) (peer : Option ℕ)
    (impls : List Implementation) (s : Pair) : Pair → Type 0 where
  asks :
      (spec : ProtocolSpec) (version : ℕ) (c : ClientSocket) (o : WireObject) (added : List Event)
      → s.client.seq + 1 < 2 ^ 32
      → IsShort spec.spec_name
      → IsU32 version
      → version ≢ 0
      → length (encode_bind_protocol spec.spec_name (s.client.seq + 1) version) < 2 ^ 63
      → bind_protocol s.client spec version ≡ done (c, some o)
      → c.trace ≡ s.client.trace ++ added
      → Move describe prep_cif peer impls s (record s { client = c; up = s.up ++ sends added })
  serves :
      (bytes : List ℕ) (rest : List (List ℕ)) (c : ServerClient) (added : List State.Event)
      → s.up ≡ bytes ∷ rest
      → s.server.error ≡ false
      → dispatch_client describe prep_cif peer impls s.server (raw_of bytes) ≡ done c
      → c.trace ≡ s.server.trace ++ added
      → Move describe prep_cif peer impls s
          (record s { server = c; up = rest; down = s.down ++ written added })
  learns :
      (bytes : List ℕ) (rest : List (List ℕ)) (c : ClientSocket) (more : Bool) (added : List Event)
      → s.down ≡ bytes ∷ rest
      → s.client.error ≡ false
      → dispatch_events describe prep_cif s.client (readable bytes) ≡ done (c, more)
      → c.trace ≡ s.client.trace ++ added
      → Move describe prep_cif peer impls s
          (record s { client = c; up = s.up ++ sends added; down = rest })

-- The server has an object of this number, for this protocol in this version.
pub record Made (os : List WireObject) (id : ℕ) (protocol : List ℕ) (version : ℕ) : Type 0 where
  pub place : ℕ
  pub object : WireObject
  pub found : get_elem? os place ≡ some object
  pub numbered : object.id ≡ id
  pub named : object.protocol_name ≡ protocol
  pub versioned : object.version ≡ version

-- The client has asked for an object under this sequence number.
pub record Asked (os : List WireObject) (seq : ℕ) (protocol : List ℕ) (version : ℕ) : Type 0 where
  pub object : WireObject
  pub found : object_for_seq seq os ≡ some object
  pub named : object.protocol_name ≡ protocol
  pub versioned : object.version ≡ version

-- An object of the client that has a number has that of an object of the server.
pub data Agrees (os : List WireObject) (o : WireObject) : Type 0 where
  unnumbered : o.id ≡ 0 → Agrees os o
  agreed : Made os o.id o.protocol_name o.version → Agrees os o

-- What is on its way: a bind is of an object that was asked for, and an answer tells the number of
-- an object that was made for it.
pub record Asks (os : List WireObject) (bytes : List ℕ) : Type 0 where
  pub name : List ℕ
  pub seq : ℕ
  pub version : ℕ
  pub encoded : bytes ≡ encode_bind_protocol name seq version
  pub fits : length (encode_bind_protocol name seq version) < 2 ^ 63
  pub taken : IsRequest (bind name seq version)
  pub asked : Asked os seq name version

pub record Tells (os qs : List WireObject) (bytes : List ℕ) : Type 0 where
  pub seq : ℕ
  pub id : ℕ
  pub encoded : bytes ≡ encode_new_object seq id
  pub taken : IsReply (new_object seq id)
  pub protocol : List ℕ
  pub version : ℕ
  pub asked : Asked os seq protocol version
  pub made : Made qs id protocol version

pub record IsConsistent (s : Pair) : Type 0 where
  pub sequenced : IsSequenced s.client
  pub nothing : s.client.pending_outgoing ≡ []
  pub numbered : IsNumbered s.server
  pub unscheduled : s.server.scheduled_roundtrip_seq ≡ 0
  pub agreeing : All (Agrees s.server.objects) s.client.objects
  pub asking : All (Asks s.client.objects) s.up
  pub telling : All (Tells s.client.objects s.server.objects) s.down

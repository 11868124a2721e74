-- ===== src/Client/Binds.antt =====
-- A protocol that is bound: the object at the client and the one at the server.
pub mod Interleavings
use hyprwire_debian.Base.{
  ℕ, ◌+◌, ◌%◌, ◌^◌, ◌<◌, ◌≤◌, ◌≡◌, ◌≢◌, refl, arith, Bool, true, false, Option, none, some, List,
  [], ◌∷◌, ◌++◌, length, IsU32, ◌∙◌, if◌then◌else◌,
}
use hyprwire_debian.Outcome.{done}
use hyprwire_debian.Message.BindProtocol.{encode_bind_protocol}
use hyprwire_debian.Message.Numbers.{encode_new_object}
use hyprwire_debian.Message.RoundTrip.Text.{IsShort}
use hyprwire_debian.WireObject.Spec.{
  WireObject, ObjectSpec, ProtocolSpec, Refusal, fresh, get_elem?,
}
use hyprwire_debian.WireObject.Demarshal.{FfiType}
use hyprwire_debian.Server.State
use hyprwire_debian.Server.State.{Implementation, ServerClient, find_impl, find_object, binds}
use hyprwire_debian.Server.Client
use hyprwire_debian.Server.Client.{create_object}
use hyprwire_debian.Server.Errors.{create_object-offered}
use hyprwire_debian.Server.Socket.{dispatch_client, answer_roundtrip}
use hyprwire_debian.Server.Requests.{
  IsRequest, bind, bound_to, next, finished, stream_bytes, stream_fds, request_bytes, request_fds,
}
use hyprwire_debian.Server.Requests.Runs.{dispatch_client-Run}
use hyprwire_debian.Client.State.{ClientSocket, log, sent, object_for_seq, set_id}
use hyprwire_debian.Client.Operations.{send_message, bind_protocol, on_seq}
use hyprwire_debian.Client.Dispatch.{returned, wait_for_object}
use hyprwire_debian.Client.Handshakes.{raw_of}
use hyprwire_debian.Client.Objects.{IsSequenced, object_for_seq-new}
use hyprwire_debian.Client.Objects.Binds.{asked_for, asking, bind_protocol-asking}
use hyprwire_debian.Client.Replies.{new_object, numbered, reply_bytes, reply_fds}
use hyprwire_debian.Client.Replies.Runs.{readable, dispatch_events-Step}
use mathlib.Core.List.{append-nil}

set_id-last :
    (seq id : ℕ) (os : List WireObject) (o : WireObject)
    → object_for_seq seq os ≡ none
    → o.seq ≡ seq
    → set_id seq id (os ++ o ∷ []) ≡ os ++ record o { id = id } ∷ []
unfolding set_id object_for_seq
set_id-last seq id [] o h e = ground (arith, e)
set_id-last seq id (p ∷ os) o h e =
    let inner : object_for_seq seq os ≡ none = ground (arith, h) in
    ground (arith, h, set_id-last seq id os o inner e)

pub object_for_seq-last :
    (seq : ℕ) (os : List WireObject) (o : WireObject)
    → object_for_seq seq os ≡ none
    → o.seq ≡ seq
    → object_for_seq seq (os ++ o ∷ []) ≡ some o
unfolding object_for_seq
object_for_seq-last seq [] o h e = ground (arith, e)
object_for_seq-last seq (p ∷ os) o h e =
    let inner : object_for_seq seq os ≡ none = ground (arith, h) in
    ground (arith, h, object_for_seq-last seq os o inner e)

pub get_elem?-length :
    (os : List WireObject) (o : WireObject) → get_elem? (os ++ o ∷ []) (length os) ≡ some o
get_elem?-length [] o = refl
get_elem?-length (p ∷ os) o = get_elem?-length os o

-- A client that has asked, and one that has its answer.
abbrev pub asked : ClientSocket → ProtocolSpec → ObjectSpec → ℕ → ClientSocket
asked c spec front version =
    log (asking c spec front version)
      (sent (encode_bind_protocol spec.spec_name (c.seq + 1) version) [])

abbrev pub numbered_by : ℕ → ClientSocket → ProtocolSpec → ObjectSpec → ℕ → ClientSocket
numbered_by id c spec front version = record (asked c spec front version) {
  objects = c.objects ++ record (asked_for c spec front version) { id = id } ∷ [];
}

-- A server's client that has made the object.
abbrev pub answered_to : ServerClient → Implementation → ObjectSpec → List ℕ → ℕ → ℕ → ServerClient
answered_to s p spec protocol seq version =
    let told = State.log s (State.sent (encode_new_object seq s.max_id) []) in
    record (if binds spec.object_name p.implementation
      then State.log told (State.bound s.max_id)
      else told) {
        objects =
            s.objects
            ++ record fresh {
              id = s.max_id;
              version = version;
              protocol_name = protocol;
              spec = some spec;
            }
              ∷ [];
        max_id = (s.max_id + 1) % 2 ^ 32;
      }

module _ (describe : Refusal → List ℕ) (prep_cif : List FfiType → Bool) where
  wait_for_object-numbered :
      (c : ClientSocket) (spec : ProtocolSpec) (front : ObjectSpec) (version id : ℕ)
      → c.error ≡ false
      → c.pending_outgoing ≡ []
      → IsSequenced c
      → c.seq + 1 < 2 ^ 32
      → IsU32 id
      → id ≢ 0
      → wait_for_object describe prep_cif
          (asked c spec front version)
          (length c.objects)
          (readable (encode_new_object (c.seq + 1) id) ∷ [])
        ≡ done (returned (numbered_by id c spec front version) true)
  unfolding wait_for_object on_seq reply_bytes reply_fds encode_new_object
  wait_for_object-numbered c spec front version id no_error nothing h small id_small nonzero =
      let o = asked_for c spec front version in
      let unused = object_for_seq-new 0 c.objects c.seq (c.seq + 1) h (omega arith) in
      ground (
        arith,
        no_error,
        nonzero,
        get_elem?-length c.objects o,
        get_elem?-length c.objects (record o { id = id }),
        set_id-last (c.seq + 1) id c.objects o unused refl,
        dispatch_events-Step describe prep_cif (asked c spec front version)
            (new_object (c.seq + 1) id) (on_seq (asked c spec front version) (c.seq + 1) id)
            (encode_new_object (c.seq + 1) id) no_error numbered nothing (small, id_small) refl refl
            (omega arith),
      )

-- A bind at the server, whatever comes of it.
pub bind-dispatched :
    (describe : Refusal → List ℕ) (prep_cif : List FfiType → Bool) (peer : Option ℕ)
    (impls : List Implementation) (s : ServerClient) (protocol : List ℕ) (seq version : ℕ)
    → s.error ≡ false
    → IsRequest (bind protocol seq version)
    → length (encode_bind_protocol protocol seq version) < 2 ^ 63
    → dispatch_client describe prep_cif peer impls s
        (raw_of (encode_bind_protocol protocol seq version))
      ≡ done (answer_roundtrip (create_object impls s protocol [] version seq).0)
unfolding stream_bytes stream_fds request_bytes request_fds
bind-dispatched describe prep_cif peer impls s protocol seq version no_error h fits =
    let bytes = encode_bind_protocol protocol seq version in
    rw (append-nil bytes) at (
      dispatch_client-Run describe prep_cif peer impls s (bind protocol seq version) []
        (create_object impls s protocol [] version seq).0 (next no_error bound_to finished) (h, tt)
        (rw (append-nil bytes) fits))

-- The server's part.
pub bind-answered :
    (describe : Refusal → List ℕ) (prep_cif : List FfiType → Bool) (peer : Option ℕ)
    (impls : List Implementation) (s : ServerClient) (protocol : List ℕ) (seq version : ℕ)
    (p : Implementation) (spec : ObjectSpec)
    → s.valid ≡ true
    → s.error ≡ false
    → s.scheduled_roundtrip_seq ≡ 0
    → IsShort protocol
    → IsU32 seq
    → IsU32 version
    → version ≢ 0
    → find_impl protocol impls ≡ some p
    → find_object [] p.protocol.objects ≡ some spec
    → version ≤ p.protocol.spec_ver
    → length (encode_bind_protocol protocol seq version) < 2 ^ 63
    → dispatch_client describe prep_cif peer impls s
        (raw_of (encode_bind_protocol protocol seq version))
      ≡ done (answered_to s p spec protocol seq version)
bind-answered describe prep_cif peer impls s protocol seq version p spec valid no_error no_roundtrip
      hp hs hv nonzero there first le fits =
    let made = create_object-offered impls s protocol [] version seq p spec there first le in
    bind-dispatched describe prep_cif peer impls s protocol seq version no_error
      (hp, hs, hv, nonzero) fits
    ∙ (unfold Client.send_message answer_roundtrip in ground (arith, valid, no_roundtrip, made))

-- Let a valid client without an error or calls that wait, whose objects' sequence numbers ascend up
-- to the last one, below 2^32, bind a protocol in a version of 32 bits that is not 0 and not above
-- its own, and let a valid server's client without an error or a roundtrip to answer offer an
-- object of that protocol, in no lower version, with a next number of 32 bits that is not 0; the
-- name is below 2^28 bytes and the message below 2^63. Then bindProtocol sends one message under
-- the next sequence number and keeps the object as the last; the server, on that message, makes the
-- object of its next number in the same version, tells that number under the sequence number, and
-- calls onBind if there is one; and waitForObject returns on that answer with the number at that
-- object and all others as they were.
pub bind-numbered :
    (describe : Refusal → List ℕ) (prep_cif : List FfiType → Bool) (peer : Option ℕ)
    (impls : List Implementation) (c : ClientSocket) (s : ServerClient) (spec : ProtocolSpec)
    (version : ℕ) (front : ObjectSpec) (others : List ObjectSpec) (p : Implementation)
    (sspec : ObjectSpec)
    → c.valid ≡ true
    → c.error ≡ false
    → c.pending_outgoing ≡ []
    → IsSequenced c
    → c.seq + 1 < 2 ^ 32
    → spec.objects ≡ front ∷ others
    → version ≤ spec.spec_ver
    → version ≢ 0
    → IsU32 version
    → IsShort spec.spec_name
    → s.valid ≡ true
    → s.error ≡ false
    → s.scheduled_roundtrip_seq ≡ 0
    → IsU32 s.max_id
    → s.max_id ≢ 0
    → find_impl spec.spec_name impls ≡ some p
    → find_object [] p.protocol.objects ≡ some sspec
    → version ≤ p.protocol.spec_ver
    → length (encode_bind_protocol spec.spec_name (c.seq + 1) version) < 2 ^ 63
    → (bind_protocol c spec version
        ≡ done (asked c spec front version, some (asked_for c spec front version)))
      × (dispatch_client describe prep_cif peer impls s
            (raw_of (encode_bind_protocol spec.spec_name (c.seq + 1) version))
          ≡ done (answered_to s p sspec spec.spec_name (c.seq + 1) version))
      × (wait_for_object describe prep_cif
            (asked c spec front version)
            (length c.objects)
            (readable (encode_new_object (c.seq + 1) s.max_id) ∷ [])
          ≡ done (returned (numbered_by s.max_id c spec front version) true))
bind-numbered describe prep_cif peer impls c s spec version front others p sspec valid no_error
      nothing h small offers le nonzero v_small short s_valid s_no_error s_no_roundtrip id_small
      id_nonzero there first s_le fits =
    (
      bind_protocol-asking c spec version front others small le offers
          ∙ (unfold send_message in ground (arith, valid)),
      bind-answered describe prep_cif peer impls s spec.spec_name (c.seq + 1) version p sspec
          s_valid s_no_error s_no_roundtrip short small v_small nonzero there first s_le fits,
      wait_for_object-numbered describe prep_cif c spec front version s.max_id no_error nothing h
          small id_small id_nonzero,
    )

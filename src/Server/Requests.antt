-- ===== src/Server/Requests.antt =====
-- What a server promises for a client that keeps to the protocol (docs/WIRE.md): the messages such
-- a client sends, and the step that each makes.
pub mod Parse
pub mod Runs
use hyprwire_debian.Base.{
  ℕ, suc, ◌+◌, ◌^◌, ◌<◌, ◌≤◌, ◌≡◌, ◌≢◌, Bool, true, false, Option, none, some, List, [], ◌∷◌, ◌++◌,
  map, All, length, IsU32,
}
use hyprwire_debian.Message.Hello.{encode_hello}
use hyprwire_debian.Message.Handshake.{
  encode_handshake_begin, encode_handshake_ack, encode_handshake_protocols,
}
use hyprwire_debian.Message.BindProtocol.{encode_bind_protocol}
use hyprwire_debian.Message.Numbers.{encode_roundtrip_request}
use hyprwire_debian.Message.Generic.Args.{Arg, IsArg, args_fds, generic_bytes}
use hyprwire_debian.WireObject.Spec.{
  Method, ObjectSpec, WireObject, Refusal, get_elem?, has_listener,
}
use hyprwire_debian.WireObject.Demarshal.{FfiType, pointer, wire_params}
use hyprwire_debian.WireObject.RoundTrip.Check.{args_params}
use hyprwire_debian.WireObject.RoundTrip.Params.{args_types}
use hyprwire_debian.Server.State.{Implementation, ServerClient, heard, log, object_for_id}
use hyprwire_debian.Server.Client.{dispatch_first_poll, send_message, create_object}
use hyprwire_debian.Server.Parser.{protocol_text}

-- The messages from a client: of a call, its object, its method and its arguments.
pub data Request : Type 0 where
  hello : Request
  ack : ℕ → Request
  bind : List ℕ → ℕ → ℕ → Request
  invoke : ℕ → ℕ → List Arg → Request
  roundtrip : ℕ → Request

unfoldable pub request_bytes : Request → List ℕ
request_bytes hello = encode_hello
request_bytes (ack version) = encode_handshake_ack version
request_bytes (bind protocol seq version) = encode_bind_protocol protocol seq version
request_bytes (invoke object method args) = generic_bytes object method args
request_bytes (roundtrip seq) = encode_roundtrip_request seq

unfoldable pub request_fds : Request → List ℕ
request_fds (invoke object method args) = args_fds args
request_fds _ = []

-- The numbers have 32 bits, the lengths 28, and a version is not 0.
abbrev pub IsRequest : Request → Type 0
IsRequest hello = Unit {0}
IsRequest (ack version) = IsU32 version
IsRequest (bind protocol seq version) =
    (length protocol < 2 ^ 28) × IsU32 seq × IsU32 version × (version ≢ 0)
IsRequest (invoke object method args) = IsU32 object × IsU32 method × All IsArg args
IsRequest (roundtrip seq) = IsU32 seq

-- A call that the object takes.
pub record Takes (prep_cif : List FfiType → Bool) (obj : WireObject) (method : ℕ) (args : List Arg)
    : Type 0 where
  pub spec : ObjectSpec
  pub entry : Method
  pub specified : obj.spec ≡ some spec
  pub found : get_elem? spec.c2s method ≡ some entry
  pub has_one : has_listener obj.listeners method ≡ true
  pub since : entry.since ≤ obj.version
  pub fits : wire_params entry ≡ args_params args
  pub prepared : prep_cif (pointer ∷ args_types args) ≡ true

-- The steps, each of one message.
pub data Step (prep_cif : List FfiType → Bool) (peer : Option ℕ) (impls : List Implementation)
    (c : ServerClient) : Request → ServerClient → Type 0 where
  greeted :
      Step prep_cif peer impls c hello
        (send_message (dispatch_first_poll peer c) (encode_handshake_begin (1 ∷ [])) [])
  agreed :
      {version : ℕ}
      → Step prep_cif peer impls c (ack version) (
          send_message
            (record c { version = version })
            (encode_handshake_protocols (map protocol_text impls))
            [])
  bound_to :
      {protocol : List ℕ} {seq version : ℕ}
      → Step prep_cif peer impls c
          (bind protocol seq version)
          ((create_object impls c protocol [] version seq).0)
  unknown :
      {object method : ℕ} {args : List Arg}
      → object_for_id object c.objects ≡ none
      → Step prep_cif peer impls c (invoke object method args) c
  delivered :
      {object method : ℕ} {args : List Arg} {obj : WireObject}
      → object_for_id object c.objects ≡ some obj
      → Takes prep_cif obj method args
      → Step prep_cif peer impls c (invoke object method args) (log c (heard obj.id method args))
  asked :
      {seq : ℕ}
      → Step prep_cif peer impls c (roundtrip seq) (record c { scheduled_roundtrip_seq = seq })

-- A sequence of messages, none of which comes after an error.
pub data Run (prep_cif : List FfiType → Bool) (peer : Option ℕ) (impls : List Implementation)
    : ServerClient → List Request → ServerClient → Type 0 where
  finished : {c : ServerClient} → Run prep_cif peer impls c [] c
  next :
      {c c' c'' : ServerClient} {r : Request} {rs : List Request}
      → c.error ≡ false
      → Step prep_cif peer impls c r c'
      → Run prep_cif peer impls c' rs c''
      → Run prep_cif peer impls c (r ∷ rs) c''

-- What a client writes for a sequence of messages.
unfoldable pub stream_bytes : List Request → List ℕ
unfolding request_bytes
stream_bytes [] = []
stream_bytes (r ∷ rs) = request_bytes r ++ stream_bytes rs

unfoldable pub stream_fds : List Request → List ℕ
unfolding request_fds
stream_fds [] = []
stream_fds (r ∷ rs) = request_fds r ++ stream_fds rs

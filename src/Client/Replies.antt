-- ===== src/Client/Replies.antt =====
-- What a client does with the messages of a server that keeps to the protocol (docs/WIRE.md): the
-- messages such a server sends, and the step that each makes.
pub mod Parse
pub mod Runs
use hyprwire_debian.Base.{
  ℕ, ◌^◌, ◌<◌, ◌≤◌, ◌≡◌, Bool, true, false, Option, none, some, List, [], ◌∷◌, ◌++◌, All, length,
  IsU32,
}
use hyprwire_debian.Message.Handshake.{
  encode_handshake_begin, encode_handshake_ack, encode_handshake_protocols,
}
use hyprwire_debian.Message.FatalError.{encode_fatal_error, id_or_zero}
use hyprwire_debian.Message.Numbers.{encode_new_object, encode_roundtrip_done}
use hyprwire_debian.Message.Generic.Args.{Arg, IsArg, args_fds, generic_bytes}
use hyprwire_debian.Message.RoundTrip.Text.{IsShort}
use hyprwire_debian.WireObject.Spec.{Method, ObjectSpec, WireObject, get_elem?, has_listener}
use hyprwire_debian.WireObject.Demarshal.{FfiType, pointer, wire_params}
use hyprwire_debian.WireObject.RoundTrip.Check.{args_params}
use hyprwire_debian.WireObject.RoundTrip.Params.{args_types}
use hyprwire_debian.Client.State.{ClientSocket, heard, log, object_for_id}
use hyprwire_debian.Client.Operations.{send_message, server_specs, on_seq}
use hyprwire_debian.Client.Parser.{contains}

-- The messages from a server: of an event, its object, its method and its arguments.
pub data Reply : Type 0 where
  begin : List ℕ → Reply
  protocols : List (List ℕ) → Reply
  new_object : ℕ → ℕ → Reply
  event : ℕ → ℕ → List Arg → Reply
  fatal : Option ℕ → ℕ → List ℕ → Reply
  roundtrip_done : ℕ → Reply

unfoldable pub reply_bytes : Reply → List ℕ
reply_bytes (begin versions) = encode_handshake_begin versions
reply_bytes (protocols texts) = encode_handshake_protocols texts
reply_bytes (new_object seq id) = encode_new_object seq id
reply_bytes (event object method args) = generic_bytes object method args
reply_bytes (fatal obj error_id msg) = encode_fatal_error obj error_id msg
reply_bytes (roundtrip_done seq) = encode_roundtrip_done seq

unfoldable pub reply_fds : Reply → List ℕ
reply_fds (event object method args) = args_fds args
reply_fds _ = []

-- The numbers have 32 bits and the lengths 28.
abbrev pub IsReply : Reply → Type 0
IsReply (begin versions) = All IsU32 versions × (length versions < 2 ^ 28)
IsReply (protocols texts) = All IsShort texts × (length texts < 2 ^ 28)
IsReply (new_object seq id) = IsU32 seq × IsU32 id
IsReply (event object method args) = IsU32 object × IsU32 method × All IsArg args
IsReply (fatal obj error_id msg) = IsU32 (id_or_zero obj) × IsU32 error_id × IsShort msg
IsReply (roundtrip_done seq) = IsU32 seq

-- An event that the object takes.
pub record Takes (prep_cif : List FfiType → Bool) (obj : WireObject) (method : ℕ) (args : List Arg)
    : Type 0 where
  pub spec : ObjectSpec
  pub entry : Method
  pub specified : obj.spec ≡ some spec
  pub found : get_elem? spec.s2c method ≡ some entry
  pub has_one : has_listener obj.listeners method ≡ true
  pub since : entry.since ≤ obj.version
  pub fits : wire_params entry ≡ args_params args
  pub prepared : prep_cif (pointer ∷ args_types args) ≡ true

-- The steps, each of one message.
pub data Step (prep_cif : List FfiType → Bool) (c : ClientSocket)
    : Reply → ClientSocket → Type 0 where
  agreed :
      {versions : List ℕ}
      → contains 1 versions ≡ true
      → Step prep_cif c (begin versions) (send_message c (encode_handshake_ack 1) [])
  offered : {texts : List (List ℕ)} → Step prep_cif c (protocols texts) (server_specs c texts)
  numbered : {seq id : ℕ} → Step prep_cif c (new_object seq id) (on_seq c seq id)
  unknown :
      {object method : ℕ} {args : List Arg}
      → object_for_id object c.objects ≡ none
      → Step prep_cif c (event object method args) c
  delivered :
      {object method : ℕ} {args : List Arg} {obj : WireObject}
      → object_for_id object c.objects ≡ some obj
      → Takes prep_cif obj method args
      → Step prep_cif c (event object method args) (log c (heard obj.id method args))
  failed :
      {obj : Option ℕ} {error_id : ℕ} {msg : List ℕ}
      → Step prep_cif c (fatal obj error_id msg) (record c { error = true })
  answered :
      {seq : ℕ} → Step prep_cif c (roundtrip_done seq) (record c { last_ackd_roundtrip_seq = seq })

-- A sequence of messages. An error does not end it.
pub data Run (prep_cif : List FfiType → Bool)
    : ClientSocket → List Reply → ClientSocket → Type 0 where
  finished : {c : ClientSocket} → Run prep_cif c [] c
  next :
      {c c' c'' : ClientSocket} {r : Reply} {rs : List Reply}
      → Step prep_cif c r c'
      → Run prep_cif c' rs c''
      → Run prep_cif c (r ∷ rs) c''

-- What a server writes for a sequence of messages.
unfoldable pub stream_bytes : List Reply → List ℕ
unfolding reply_bytes
stream_bytes [] = []
stream_bytes (r ∷ rs) = reply_bytes r ++ stream_bytes rs

unfoldable pub stream_fds : List Reply → List ℕ
unfolding reply_fds
stream_fds [] = []
stream_fds (r ∷ rs) = reply_fds r ++ stream_fds rs

-- ===== src/Client/Handshakes.antt =====
-- The handshake, from the client's greeting to the list of the server's protocols.
use hyprwire_debian.Base.{
  ℕ, ◌^◌, ◌<◌, ◌≡◌, refl, arith, Bool, true, false, List, [], ◌∷◌, ◌++◌, Option, map, All, length,
  ◌∙◌, sym, IsU32,
}
use hyprwire_debian.Outcome.{done, peek}
use hyprwire_debian.VarInt.{encode_var_int}
use hyprwire_debian.Message.Hello.{encode_hello}
use hyprwire_debian.Message.Handshake.{
  words_bytes, encode_handshake_begin, encode_handshake_ack, encode_handshake_protocols,
}
use hyprwire_debian.Message.RoundTrip.Text.{IsShort}
use hyprwire_debian.Message.RoundTrip.Texts.{parse_handshake_begin-encode}
use hyprwire_debian.WireObject.Spec.{Refusal}
use hyprwire_debian.WireObject.Demarshal.{FfiType}
use hyprwire_debian.Server.State
use hyprwire_debian.Server.State.{Implementation, ServerClient}
use hyprwire_debian.Server.Client
use hyprwire_debian.Server.Client.{dispatch_first_poll}
use hyprwire_debian.Server.Parser.{protocol_text}
use hyprwire_debian.Server.Socket.{RawMessage, dispatch_client, answer_roundtrip}
use hyprwire_debian.Server.Requests
use hyprwire_debian.Server.Requests.{
  Request, hello, ack, next, finished, stream_bytes, stream_fds, request_bytes, request_fds,
}
use hyprwire_debian.Server.Requests.Runs.{dispatch_client-Run}
use hyprwire_debian.Client.State.{ClientSocket, log, sent}
use hyprwire_debian.Client.Operations.{greet, send_message, server_specs, disconnect_on_error}
use hyprwire_debian.Client.Parser.{contains, on_begin, parse_single_message, handle_message}
use hyprwire_debian.Client.Dispatch.{
  Polled, returned, dispatch_events, after_message, wait_for_handshake,
}
use hyprwire_debian.Client.ServerSpecs.{offer, IsVersioned, server_specs-protocol_texts}
use hyprwire_debian.Client.Replies.{begin, protocols, agreed, offered, reply_bytes, reply_fds}
use hyprwire_debian.Client.Replies.Runs.{readable, dispatch_events-Step}
use mathlib.Core.List.{append-nil}

-- What a server reads when a client has written these bytes.
abbrev pub raw_of : List ℕ → RawMessage
raw_of bytes = record { bytes = bytes; fds = []; bad = false }

-- A server's client that has been greeted, and one that has been told the protocols.
abbrev pub begun : Option ℕ → ServerClient → ServerClient
begun peer s =
    State.log (dispatch_first_poll peer s) (State.sent (encode_handshake_begin (1 ∷ [])) [])

abbrev pub told : List Implementation → ServerClient → ServerClient
told impls s =
    State.log (record s { version = 1 })
      (State.sent (encode_handshake_protocols (map protocol_text impls)) [])

-- A client that has greeted, and one that has agreed and knows the protocols.
abbrev pub greeting : ClientSocket → ClientSocket
greeting c = log (record c { valid = true }) (sent encode_hello [])

abbrev pub agreeing : ClientSocket → ClientSocket
agreeing c = log c (sent (encode_handshake_ack 1) [])

abbrev pub informed : List Implementation → ClientSocket → ClientSocket
informed impls c = record c {
  server_specs = c.server_specs ++ map offer impls;
  handshake_done = true;
}

module _ (describe : Refusal → List ℕ) (prep_cif : List FfiType → Bool) (peer : Option ℕ)
    (impls : List Implementation) where
  hello-begun :
      (s : ServerClient)
      → s.valid ≡ true
      → s.error ≡ false
      → s.scheduled_roundtrip_seq ≡ 0
      → dispatch_client describe prep_cif peer impls s (raw_of encode_hello) ≡ done (begun peer s)
  unfolding stream_bytes stream_fds request_bytes request_fds encode_hello
  hello-begun s valid no_error no_roundtrip =
      dispatch_client-Run describe prep_cif peer impls s hello [] _
        (next no_error Requests.greeted finished) (tt, tt) (omega arith)
      ∙ (unfold Client.send_message dispatch_first_poll answer_roundtrip in
          ground (arith, valid, no_roundtrip))

  ack-told :
      (s : ServerClient)
      → s.valid ≡ true
      → s.error ≡ false
      → s.scheduled_roundtrip_seq ≡ 0
      → dispatch_client describe prep_cif peer impls s (raw_of (encode_handshake_ack 1))
        ≡ done (told impls s)
  unfolding stream_bytes stream_fds request_bytes request_fds encode_handshake_ack
  ack-told s valid no_error no_roundtrip =
      dispatch_client-Run describe prep_cif peer impls s (ack 1) [] _
        (next no_error Requests.agreed finished) (omega arith, tt) (omega arith)
      ∙ (unfold Client.send_message answer_roundtrip in ground (arith, valid, no_roundtrip))

begin-short : length (encode_handshake_begin (1 ∷ [])) < 2 ^ 63
unfolding encode_handshake_begin words_bytes encode_var_int
begin-short = omega arith

module _ (describe : Refusal → List ℕ) (prep_cif : List FfiType → Bool) where
  begin-agreeing :
      (c : ClientSocket)
      → c.valid ≡ true
      → c.error ≡ false
      → c.pending_outgoing ≡ []
      → dispatch_events describe prep_cif c (readable (encode_handshake_begin (1 ∷ [])))
        ≡ done (agreeing c, true)
  unfolding send_message reply_bytes reply_fds contains encode_handshake_begin
  begin-agreeing c valid no_error nothing =
      let c' = send_message c (encode_handshake_ack 1) [] in
      let acked : c' ≡ agreeing c = ground (arith, valid) in
      ground (
        arith,
        valid,
        no_error,
        dispatch_events-Step describe prep_cif c (begin (1 ∷ [])) c'
            (encode_handshake_begin (1 ∷ [])) no_error (agreed refl) (rw acked nothing)
            (omega arith) refl refl begin-short,
      )

  protocols-informed :
      (impls : List Implementation) (c : ClientSocket)
      → c.error ≡ false
      → c.pending_outgoing ≡ []
      → All IsVersioned impls
      → All IsShort (map protocol_text impls)
      → length (map protocol_text impls) < 2 ^ 28
      → length (encode_handshake_protocols (map protocol_text impls)) < 2 ^ 63
      → dispatch_events describe prep_cif c
          (readable (encode_handshake_protocols (map protocol_text impls)))
        ≡ done (informed impls c, true)
  unfolding reply_bytes reply_fds
  protocols-informed impls c no_error nothing hv hs hl fits =
      let texts = map protocol_text impls in
      let known = server_specs-protocol_texts c impls hv in
      ground (
        arith,
        no_error,
        known,
        dispatch_events-Step describe prep_cif c (protocols texts) (server_specs c texts)
            (encode_handshake_protocols texts) no_error offered (rw known nothing) (hs, hl) refl
            refl fits,
      )

-- Let a client without an error, a handshake or calls that wait be connected to a valid server's
-- client without an error or a roundtrip to answer, and let the server offer fewer than 2^28
-- protocols with versions of 32 bits, whose texts are below 2^28 bytes and whose message is below
-- 2^63. Then the server answers the greeting with version 1 and the ack with its protocols, each in
-- one message; and waitForHandshake of the client that greeted returns true when it reads the two,
-- having sent the ack, with the handshake done and, behind what it knew, the name and version of
-- each protocol in order.
pub handshake-agreed :
    (describe : Refusal → List ℕ) (prep_cif : List FfiType → Bool) (peer : Option ℕ)
    (impls : List Implementation) (c : ClientSocket) (s : ServerClient)
    → c.error ≡ false
    → c.handshake_done ≡ false
    → c.pending_outgoing ≡ []
    → s.valid ≡ true
    → s.error ≡ false
    → s.scheduled_roundtrip_seq ≡ 0
    → All IsVersioned impls
    → All IsShort (map protocol_text impls)
    → length (map protocol_text impls) < 2 ^ 28
    → length (encode_handshake_protocols (map protocol_text impls)) < 2 ^ 63
    → (dispatch_client describe prep_cif peer impls s (raw_of encode_hello) ≡ done (begun peer s))
      × (dispatch_client describe prep_cif peer impls
            (begun peer s)
            (raw_of (encode_handshake_ack 1))
          ≡ done (told impls (begun peer s)))
      × (wait_for_handshake describe prep_cif (greet c true) (
            readable (encode_handshake_begin (1 ∷ []))
            ∷ readable (encode_handshake_protocols (map protocol_text impls))
            ∷ [])
          ≡ done (returned (informed impls (agreeing (greeting c))) true))
unfolding greet send_message wait_for_handshake
handshake-agreed describe prep_cif peer impls c s no_error shaking nothing s_valid s_no_error
      s_no_roundtrip hv hs hl fits =
    (
      hello-begun describe prep_cif peer impls s s_valid s_no_error s_no_roundtrip,
      ack-told describe prep_cif peer impls (begun peer s) greeted.0 greeted.1 greeted.2,
      ground (
        arith,
        no_error,
        shaking,
        begin-agreeing describe prep_cif (greeting c) refl no_error nothing,
        protocols-informed describe prep_cif impls (agreeing (greeting c)) no_error nothing hv hs hl
            fits,
      ),
    )
  where
    greeted :
        ((begun peer s).valid ≡ true)
        × ((begun peer s).error ≡ false)
        × ((begun peer s).scheduled_roundtrip_seq ≡ 0)
    greeted = unfold dispatch_first_poll in ground (arith, s_valid, s_no_error, s_no_roundtrip)

-- waitForHandshake of a client that has just greeted, without an error or a handshake, returns
-- false with its socket closed and its error set, and sends nothing, when the server begins with
-- fewer than 2^28 versions of 32 bits among which 1 is not.
pub handshake-refused :
    (describe : Refusal → List ℕ) (prep_cif : List FfiType → Bool) (c : ClientSocket)
    (versions : List ℕ) (later : List Polled)
    → c.error ≡ false
    → c.handshake_done ≡ false
    → All IsU32 versions
    → length versions < 2 ^ 28
    → contains 1 versions ≡ false
    → wait_for_handshake describe prep_cif
        (greet c true)
        (readable (encode_handshake_begin versions) ∷ later)
      ≡ done (returned (record (greeting c) { error = true; valid = false }) false)
unfolding disconnect_on_error greet send_message wait_for_handshake dispatch_events after_message
    handle_message parse_single_message peek on_begin encode_handshake_begin
handshake-refused describe prep_cif c versions later no_error shaking hv hl none_fits =
    let bytes = encode_handshake_begin versions in
    ground (
      arith,
      no_error,
      shaking,
      none_fits,
      parse_handshake_begin-encode versions bytes 0 [] hv hl (sym (append-nil bytes)),
    )

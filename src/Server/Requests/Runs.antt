-- ===== src/Server/Requests/Runs.antt =====
-- All that a client wrote, in one buffer.
use hyprwire_debian.Base.{
  ℕ, zero, suc, ◌+◌, ◌^◌, ◌<◌, ◌≤◌, ◌≡◌, refl, ap, arith, Bool, false, Option, List, [], ◌∷◌, All,
  length, length-append, length-drop, drop, drop-append, add64_lem,
}
use hyprwire_debian.Outcome.{done}
use hyprwire_debian.Message.Hello.{encode_hello}
use hyprwire_debian.Message.Handshake.{encode_handshake_ack}
use hyprwire_debian.Message.BindProtocol.{encode_bind_protocol}
use hyprwire_debian.Message.Numbers.{encode_roundtrip_request}
use hyprwire_debian.Message.Generic.Args.{generic_bytes}
use hyprwire_debian.WireObject.Spec.{Refusal, is_empty-pos}
use hyprwire_debian.WireObject.Demarshal.{FfiType}
use hyprwire_debian.Server.State.{Implementation, ServerClient}
use hyprwire_debian.Server.Parser.{handle_message, parsed_ok}
use hyprwire_debian.Server.Socket.{dispatch_client, after_message, answer_roundtrip}
use hyprwire_debian.Server.Requests.{
  Request, hello, ack, bind, invoke, roundtrip, request_bytes, IsRequest, Run, finished, next,
  stream_bytes, stream_fds,
}
use hyprwire_debian.Server.Requests.Parse.{parse_single_message-Step}

request_bytes-pos : (r : Request) → 0 < length (request_bytes r)
unfolding request_bytes
request_bytes-pos hello = unfold encode_hello in ground arith
request_bytes-pos (ack version) = unfold encode_handshake_ack in ground arith
request_bytes-pos (bind protocol seq version) = unfold encode_bind_protocol in ground arith
request_bytes-pos (invoke object method args) = unfold generic_bytes in ground arith
request_bytes-pos (roundtrip seq) = unfold encode_roundtrip_request in ground arith

length-stream_bytes : (rs : List Request) → length rs ≤ length (stream_bytes rs)
unfolding stream_bytes
length-stream_bytes [] = omega arith
length-stream_bytes (r ∷ rs) = omega (
  arith,
  length-append (request_bytes r) (stream_bytes rs),
  request_bytes-pos r,
  length-stream_bytes rs,
)

module _ (describe : Refusal → List ℕ) (prep_cif : List FfiType → Bool) (peer : Option ℕ)
    (impls : List Implementation) where
  -- The loop of handleMessage takes the steps of the messages in the buffer, one after the other.
  pub handle_message-Run :
      (c : ServerClient) (rs : List Request) (c' : ServerClient) (fuel : ℕ) (bytes : List ℕ)
      (needle : ℕ)
      → Run prep_cif peer impls c rs c'
      → All IsRequest rs
      → length rs < fuel
      → length bytes < 2 ^ 63
      → drop needle bytes ≡ stream_bytes rs
      → handle_message describe prep_cif peer impls fuel c bytes (stream_fds rs) needle
        ≡ done (c', parsed_ok)
  unfolding handle_message stream_bytes stream_fds
  handle_message-Run c [] c' zero bytes needle run h hf fits e = elim hf [ ]
  handle_message-Run c (r ∷ rs) c' zero bytes needle run h hf fits e = elim hf [ ]
  handle_message-Run c [] _ (suc fuel) bytes needle finished h hf fits e =
      ground (arith, length-drop needle bytes, ap length e)
  handle_message-Run c (r ∷ rs) c'' (suc fuel) bytes needle (next {c' = c'} no_error step run) h hf
        fits e =
      let len = length (request_bytes r) in
      let e' : drop (needle + len) bytes ≡ stream_bytes rs =
        drop-append needle bytes (request_bytes r) (stream_bytes rs) e in
      ground (
        arith,
        no_error,
        length-drop needle bytes,
        ap length e,
        length-append (request_bytes r) (stream_bytes rs),
        request_bytes-pos r,
        parse_single_message-Step describe prep_cif peer impls c r c' bytes needle (stream_fds rs)
            (stream_bytes rs) step h.0 fits e,
        add64_lem needle len (
            omega (
              arith,
              request_bytes-pos r,
              length-drop needle bytes,
              ap length e,
              length-append (request_bytes r) (stream_bytes rs),
            )),
        handle_message-Run c' rs c'' fuel bytes (needle + len) run h.1 (omega arith) fits e',
      )

  -- Dispatching a buffer, below 2^63 bytes, that holds the messages of a client (hello, ack, bind,
  -- call, roundtrip, their numbers of 32 bits and their lengths of 28) with their descriptors makes
  -- the steps of the messages in order, if none comes after an error and each call meets no object
  -- or one that takes it; then the last roundtrip that was asked for is answered, and all
  -- descriptors are used.
  pub dispatch_client-Run :
      (c : ServerClient) (r : Request) (rs : List Request) (c' : ServerClient)
      → Run prep_cif peer impls c (r ∷ rs) c'
      → All IsRequest (r ∷ rs)
      → length (stream_bytes (r ∷ rs)) < 2 ^ 63
      → dispatch_client describe prep_cif peer impls c
          (record { bytes = stream_bytes (r ∷ rs); fds = stream_fds (r ∷ rs); bad = false })
        ≡ done (answer_roundtrip c')
  unfolding dispatch_client after_message stream_bytes
  dispatch_client-Run c r rs c' run h fits = ground (
    arith,
    is_empty-pos (stream_bytes (r ∷ rs))
        (omega (arith, request_bytes-pos r, length-append (request_bytes r) (stream_bytes rs))),
    handle_message-Run c (r ∷ rs) c' (length (stream_bytes (r ∷ rs)) + 1) (stream_bytes (r ∷ rs)) 0
        run h (omega (arith, length-stream_bytes (r ∷ rs))) fits refl,
  )

-- ===== src/Server/Requests/Parse.antt =====
-- One message of a client that keeps to the protocol, wherever it stands in the buffer.
use hyprwire_debian.Base.{
  ℕ, ◌+◌, ◌^◌, ◌<◌, ◌≡◌, refl, arith, Bool, Option, some, List, ◌∷◌, ◌++◌, All, length, drop, ◌∙◌,
}
use hyprwire_debian.Outcome.{done, peek}
use hyprwire_debian.Message.Hello.{encode_hello}
use hyprwire_debian.Message.Handshake.{encode_handshake_ack}
use hyprwire_debian.Message.BindProtocol.{encode_bind_protocol}
use hyprwire_debian.Message.Numbers.{encode_roundtrip_request}
use hyprwire_debian.Message.Generic.Args.{Arg, IsArg, args_fds, args_bytes, generic_bytes}
use hyprwire_debian.Message.Generic.Arrivals.{
  arrived, generic_tail, args_in, generic_bytes-lt, length-args_bytes,
}
use hyprwire_debian.Message.Generic.RoundTrip.{parse_generic-encode}
use hyprwire_debian.Message.RoundTrip.Numbers.{
  parse_hello-encode, parse_handshake_ack-encode, parse_roundtrip_request-encode,
}
use hyprwire_debian.Message.RoundTrip.Records.{parse_bind_protocol-encode}
use hyprwire_debian.WireObject.Spec.{WireObject, Refusal, methods_in}
use hyprwire_debian.WireObject.Demarshal.{FfiType, Span}
use hyprwire_debian.WireObject.RoundTrip.EndToEnd.{called-args}
use hyprwire_debian.Server.State.{Implementation, ServerClient, object_for_id, log, heard}
use hyprwire_debian.Server.Client.{on_generic, call_object, after_called}
use hyprwire_debian.Server.Parser.{
  parse_single_message, on_hello, on_ack, on_bind_message, on_generic_message, on_roundtrip_request,
}
use hyprwire_debian.Server.Requests.{
  Request, hello, ack, bind, invoke, roundtrip, request_bytes, request_fds, IsRequest, Takes, Step,
  greeted, agreed, bound_to, unknown, delivered, asked,
}

module _ (describe : Refusal → List ℕ) (prep_cif : List FfiType → Bool) (peer : Option ℕ)
    (impls : List Implementation) where
  -- A call that arrives, given what `onGeneric` makes of it.
  invoke_in :
      (c c' : ServerClient) (object method : ℕ) (args : List Arg) (bytes : List ℕ) (off : ℕ)
      (more rest : List ℕ)
      → IsRequest (invoke object method args)
      → length bytes < 2 ^ 63
      → drop off bytes ≡ generic_bytes object method args ++ rest
      → on_generic describe prep_cif c (arrived object method args rest) ≡ done c'
      → parse_single_message describe prep_cif peer impls c bytes (args_fds args ++ more) off
        ≡ done (c', more, length (generic_bytes object method args))
  unfolding parse_single_message peek on_generic_message
  invoke_in c c' object method args bytes off more rest h fits e made =
      rw
        (
          code_in,
          parse_generic-encode object method args bytes off (length bytes + 1) more rest h.0 h.1 h.2
              (omega (arith, args_in bytes off object method args rest e, length-args_bytes args))
              fits e,
          made,
        )
        (ground (arith, generic_bytes-lt object method args))
    where
      code_in : drop off bytes ≡ 100 ∷ (generic_tail object method args ++ rest)
      code_in = e ∙ unfold generic_bytes in refl

  -- An object that takes a call hears the arguments that were sent.
  deliver_in :
      (c : ServerClient) (object method : ℕ) (args : List Arg) (obj : WireObject) (rest : List ℕ)
      → object_for_id object c.objects ≡ some obj
      → Takes prep_cif obj method args
      → All IsArg args
      → length (args_bytes args) + 1 < 2 ^ 63
      → on_generic describe prep_cif c (arrived object method args rest)
        ≡ done (log c (heard obj.id method args))
  unfolding on_generic call_object methods_in after_called
  deliver_in c object method args obj rest f t ha small =
      let s : Span = record {
        mem = args_bytes args ++ 0 ∷ rest;
        size = length (args_bytes args) + 1;
      } in
      ground (
        arith,
        f,
        t.specified,
        called-args prep_cif (length (args_bytes args) + 1 + 1) t.spec.c2s obj method s args rest
            t.entry t.found t.has_one t.since t.fits t.prepared ha
            (omega (arith, length-args_bytes args)) small (omega arith) refl,
      )

  -- Each step is what parseSingleMessage does on the message, of which it returns the length.
  pub parse_single_message-Step :
      (c : ServerClient) (r : Request) (c' : ServerClient) (bytes : List ℕ) (off : ℕ)
      (more rest : List ℕ)
      → Step prep_cif peer impls c r c'
      → IsRequest r
      → length bytes < 2 ^ 63
      → drop off bytes ≡ request_bytes r ++ rest
      → parse_single_message describe prep_cif peer impls c bytes (request_fds r ++ more) off
        ≡ done (c', more, length (request_bytes r))
  unfolding parse_single_message request_bytes request_fds
  parse_single_message-Step c hello c' bytes off more rest greeted h fits e =
      unfold encode_hello peek on_hello in ground (arith, e, parse_hello-encode bytes off rest e)
  parse_single_message-Step c (ack version) c' bytes off more rest agreed h fits e =
      unfold encode_handshake_ack peek on_ack in
      ground (arith, e, parse_handshake_ack-encode version bytes off rest h e)
  parse_single_message-Step c (bind protocol seq version) c' bytes off more rest bound_to h fits e =
      unfold encode_bind_protocol peek on_bind_message in
      ground
        (arith, e, parse_bind_protocol-encode protocol seq version bytes off rest h.0 h.1 h.2 h.3 e)
  parse_single_message-Step c (invoke object method args) c' bytes off more rest (unknown n) h fits
        e =
      invoke_in c c object method args bytes off more rest h fits e
        (unfold on_generic in ground (arith, n))
  parse_single_message-Step c (invoke object method args) c' bytes off more rest (delivered f t) h
        fits e =
      invoke_in c _ object method args bytes off more rest h fits e (
        deliver_in c object method args _ rest f t h.2
          (omega (arith, args_in bytes off object method args rest e)))
  parse_single_message-Step c (roundtrip seq) c' bytes off more rest asked h fits e =
      unfold encode_roundtrip_request peek on_roundtrip_request in
      ground (arith, e, parse_roundtrip_request-encode seq bytes off rest h e)

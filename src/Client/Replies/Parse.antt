-- ===== src/Client/Replies/Parse.antt =====
-- One message of a server that keeps to the protocol, wherever it stands in the buffer.
use hyprwire_debian.Base.{
  ℕ, ◌+◌, ◌^◌, ◌<◌, ◌≡◌, refl, arith, Bool, some, List, ◌∷◌, ◌++◌, All, length, drop, ◌∙◌,
}
use hyprwire_debian.Outcome.{done, peek}
use hyprwire_debian.Message.Handshake.{encode_handshake_begin, encode_handshake_protocols}
use hyprwire_debian.Message.FatalError.{encode_fatal_error}
use hyprwire_debian.Message.Numbers.{encode_new_object, encode_roundtrip_done}
use hyprwire_debian.Message.Generic.Args.{Arg, IsArg, args_fds, args_bytes, generic_bytes}
use hyprwire_debian.Message.Generic.Arrivals.{
  arrived, generic_tail, args_in, generic_bytes-lt, length-args_bytes,
}
use hyprwire_debian.Message.Generic.RoundTrip.{parse_generic-encode}
use hyprwire_debian.Message.RoundTrip.Numbers.{parse_new_object-encode, parse_roundtrip_done-encode}
use hyprwire_debian.Message.RoundTrip.Records.{parse_fatal_error-encode}
use hyprwire_debian.Message.RoundTrip.Texts.{
  parse_handshake_begin-encode, parse_handshake_protocols-encode,
}
use hyprwire_debian.WireObject.Spec.{WireObject, Refusal, methods_in}
use hyprwire_debian.WireObject.Demarshal.{FfiType, Span}
use hyprwire_debian.WireObject.RoundTrip.EndToEnd.{called-args}
use hyprwire_debian.Client.State.{ClientSocket, object_for_id, log, heard}
use hyprwire_debian.Client.Operations.{on_generic, call_object, after_called}
use hyprwire_debian.Client.Parser.{
  parse_single_message, on_begin, on_protocols, on_new_object, on_generic_message, on_fatal_error,
  on_roundtrip_done,
}
use hyprwire_debian.Client.Replies.{
  Reply, begin, protocols, new_object, event, fatal, roundtrip_done, reply_bytes, reply_fds,
  IsReply, Takes, Step, agreed, offered, numbered, unknown, delivered, failed, answered,
}

module _ (describe : Refusal → List ℕ) (prep_cif : List FfiType → Bool) where
  -- An event that arrives, given what `onGeneric` makes of it.
  event_in :
      (c c' : ClientSocket) (object method : ℕ) (args : List Arg) (bytes : List ℕ) (off : ℕ)
      (more rest : List ℕ)
      → IsReply (event object method args)
      → length bytes < 2 ^ 63
      → drop off bytes ≡ generic_bytes object method args ++ rest
      → on_generic describe prep_cif c (arrived object method args rest) ≡ done c'
      → parse_single_message describe prep_cif c bytes (args_fds args ++ more) off
        ≡ done (c', more, length (generic_bytes object method args))
  unfolding parse_single_message peek on_generic_message
  event_in c c' object method args bytes off more rest h fits e made =
      rw
        (
          code_in,
          parse_generic-encode object method args bytes off (length bytes + 1) more rest h.0 h.1 h.2
              (omega (arith, args_in bytes off object method args rest e, length-args_bytes args))
              fits e,
          made,
        )
        (ground (arith, generic_bytes-lt object method args))
    where
      code_in : drop off bytes ≡ 100 ∷ (generic_tail object method args ++ rest)
      code_in = e ∙ unfold generic_bytes in refl

  -- An object that takes an event hears the arguments that were sent.
  deliver_in :
      (c : ClientSocket) (object method : ℕ) (args : List Arg) (obj : WireObject) (rest : List ℕ)
      → object_for_id object c.objects ≡ some obj
      → Takes prep_cif obj method args
      → All IsArg args
      → length (args_bytes args) + 1 < 2 ^ 63
      → on_generic describe prep_cif c (arrived object method args rest)
        ≡ done (log c (heard obj.id method args))
  unfolding on_generic call_object methods_in after_called
  deliver_in c object method args obj rest f t ha small =
      let s : Span = record {
        mem = args_bytes args ++ 0 ∷ rest;
        size = length (args_bytes args) + 1;
      } in
      ground (
        arith,
        f,
        t.specified,
        called-args prep_cif (length (args_bytes args) + 1 + 1) t.spec.s2c obj method s args rest
            t.entry t.found t.has_one t.since t.fits t.prepared ha
            (omega (arith, length-args_bytes args)) small (omega arith) refl,
      )

  -- Each step is what parseSingleMessage does on the message, of which it returns the length.
  pub parse_single_message-Step :
      (c : ClientSocket) (r : Reply) (c' : ClientSocket) (bytes : List ℕ) (off : ℕ)
      (more rest : List ℕ)
      → Step prep_cif c r c'
      → IsReply r
      → length bytes < 2 ^ 63
      → drop off bytes ≡ reply_bytes r ++ rest
      → parse_single_message describe prep_cif c bytes (reply_fds r ++ more) off
        ≡ done (c', more, length (reply_bytes r))
  unfolding parse_single_message reply_bytes reply_fds
  parse_single_message-Step c (begin versions) c' bytes off more rest (agreed k) h fits e =
      let read = parse_handshake_begin-encode versions bytes off rest h.0 h.1 e in
      unfold encode_handshake_begin peek on_begin in ground (arith, e, k, read)
  parse_single_message-Step c (protocols texts) c' bytes off more rest offered h fits e =
      let read = parse_handshake_protocols-encode texts bytes off rest h.0 h.1 e in
      unfold encode_handshake_protocols peek on_protocols in ground (arith, e, read)
  parse_single_message-Step c (new_object seq id) c' bytes off more rest numbered h fits e =
      unfold encode_new_object peek on_new_object in
      ground (arith, e, parse_new_object-encode seq id bytes off rest h.0 h.1 e)
  parse_single_message-Step c (event object method args) c' bytes off more rest (unknown n) h fits
        e =
      event_in c c object method args bytes off more rest h fits e
        (unfold on_generic in ground (arith, n))
  parse_single_message-Step c (event object method args) c' bytes off more rest (delivered f t) h
        fits e =
      event_in c _ object method args bytes off more rest h fits e (
        deliver_in c object method args _ rest f t h.2
          (omega (arith, args_in bytes off object method args rest e)))
  parse_single_message-Step c (fatal obj error_id msg) c' bytes off more rest failed h fits e =
      let read = parse_fatal_error-encode obj error_id msg bytes off rest h.0 h.1 h.2 e in
      unfold encode_fatal_error peek on_fatal_error in ground (arith, e, read)
  parse_single_message-Step c (roundtrip_done seq) c' bytes off more rest answered h fits e =
      unfold encode_roundtrip_done peek on_roundtrip_done in
      ground (arith, e, parse_roundtrip_done-encode seq bytes off rest h e)

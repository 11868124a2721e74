-- ===== src/Client/Parser.antt =====
-- CMessageParser for a client's socket (src/core/message/MessageParser.cpp).
use hyprwire_debian.Base.{
  ℕ, zero, suc, ◌+◌, Bool, true, false, ◌||◌, List, [], ◌∷◌, ltb, ◌==◌, if◌then◌else◌, length,
  add64,
}
use hyprwire_debian.Outcome.{Outcome, done, reject, crash, stuck, peek, ◌>>=◌}
use hyprwire_debian.Wire.MessageType
use hyprwire_debian.Message.Handshake.{
  parse_handshake_begin, parse_handshake_protocols, encode_handshake_ack,
}
use hyprwire_debian.Message.Numbers.{parse_new_object, parse_roundtrip_done}
use hyprwire_debian.Message.FatalError.{FatalError, parse_fatal_error}
use hyprwire_debian.Message.Generic.{Generic, parse_generic}
use hyprwire_debian.WireObject.Spec.{Refusal, is_empty}
use hyprwire_debian.WireObject.Demarshal.{FfiType}
use hyprwire_debian.Server.Parser.{
  decoded, protocol_ver, Result, parsed_ok, parsed_error, parsed_stray_fds,
}
use hyprwire_debian.Client.State.{ClientSocket}
use hyprwire_debian.Client.Operations.{send_message, server_specs, on_seq, on_generic}

-- The socket, the descriptors that are left, and what parseSingleMessage returns.
abbrev pub Parsed : Type 0
Parsed = ClientSocket × List ℕ × ℕ

-- `std::ranges::contains`
unfoldable pub contains : ℕ → List ℕ → Bool
contains v [] = false
contains v (w ∷ ws) = v == w || contains v ws

unfoldable pub on_begin : ClientSocket → List ℕ → List ℕ → ℕ → Outcome Parsed
unfolding contains
on_begin c bytes fds off =
    decoded (parse_handshake_begin bytes off) (c, fds, 0)
      (λ versions len. done (
        if contains protocol_ver versions
        then (send_message c (encode_handshake_ack protocol_ver) [], fds, len)
        else (c, fds, 0)))

unfoldable pub on_protocols : ClientSocket → List ℕ → List ℕ → ℕ → Outcome Parsed
on_protocols c bytes fds off =
    decoded (parse_handshake_protocols bytes off) (c, fds, 0)
      (λ protocols len. done (server_specs c protocols, fds, len))

unfoldable pub on_new_object : ClientSocket → List ℕ → List ℕ → ℕ → Outcome Parsed
on_new_object c bytes fds off =
    decoded (parse_new_object bytes off) (c, fds, 0)
      (λ msg len. done (on_seq c msg.seq msg.id, fds, len))

-- The error is set, whether or not the message can be read, and then `m_len` is returned.
abbrev pub fatal_parsed : ClientSocket → List ℕ → Outcome (FatalError × ℕ) → Outcome Parsed
fatal_parsed c fds (done (msg, len)) = done (record c { error = true }, fds, len)
fatal_parsed c fds reject = done (record c { error = true }, fds, 0)
fatal_parsed c fds crash = crash
fatal_parsed c fds stuck = stuck

unfoldable pub on_fatal_error : ClientSocket → List ℕ → List ℕ → ℕ → Outcome Parsed
on_fatal_error c bytes fds off = fatal_parsed c fds (parse_fatal_error bytes off)

unfoldable pub on_roundtrip_done : ClientSocket → List ℕ → List ℕ → ℕ → Outcome Parsed
on_roundtrip_done c bytes fds off =
    decoded (parse_roundtrip_done bytes off) (c, fds, 0)
      (λ seq len. done (record c { last_ackd_roundtrip_seq = seq }, fds, len))

-- The messages of a client, which set a client's error; a code of no message does not.
unfoldable pub is_client_message : ℕ → Bool
is_client_message code =
    code == MessageType.sup
    || code == MessageType.handshake_ack
    || code == MessageType.bind_protocol
    || code == MessageType.roundtrip_request

abbrev pub refuse_message : ClientSocket → ℕ → List ℕ → Parsed
refuse_message c code fds =
    (if is_client_message code then record c { error = true } else c, fds, 0)

module _ (describe : Refusal → List ℕ) (prep_cif : List FfiType → Bool) where
  unfoldable pub on_generic_message : ClientSocket → List ℕ → List ℕ → ℕ → Outcome Parsed
  on_generic_message c bytes fds off =
      decoded {A = Generic × List ℕ}
        (do
          (msg, len, left) ← parse_generic (length bytes + 1) bytes fds off
          done ((msg, left), len))
        (c, fds, 0) (λ msg len. do c' ← on_generic describe prep_cif c msg.0; done (c', msg.1, len))

  -- CMessageParser::parseSingleMessage. That `at(off)` throws is not caught.
  unfoldable pub parse_single_message : ClientSocket → List ℕ → List ℕ → ℕ → Outcome Parsed
  unfolding on_begin on_protocols on_new_object on_generic_message on_fatal_error on_roundtrip_done
      is_client_message
  parse_single_message c bytes fds off = do
    code ← peek bytes off
    if code == MessageType.handshake_begin
        then on_begin c bytes fds off
        else if code == MessageType.handshake_protocols
        then on_protocols c bytes fds off
        else if code == MessageType.new_object
        then on_new_object c bytes fds off
        else if code == MessageType.generic_protocol_message
        then on_generic_message c bytes fds off
        else if code == MessageType.fatal_protocol_error
        then on_fatal_error c bytes fds off
        else if code == MessageType.roundtrip_done
        then on_roundtrip_done c bytes fds off
        else done (refuse_message c code fds)

  -- CMessageParser::handleMessage, on fuel: where no length wraps, each message that is taken moves
  -- `needle` on by a byte at least, and the buffer's length is fuel enough. An error of the client
  -- does not end it.
  unfoldable pub handle_message :
      ℕ → ClientSocket → List ℕ → List ℕ → ℕ → Outcome (ClientSocket × Result)
  unfolding parse_single_message
  handle_message zero c bytes fds needle = stuck
  handle_message (suc fuel) c bytes fds needle = elim (ltb needle (length bytes)) [
    | false ↦ done (c, if is_empty fds then parsed_ok else parsed_stray_fds)
    | true ↦ do
      (c', fds', ret) ← parse_single_message c bytes fds needle
      elim (ret == 0) [
        | true ↦ done (c', parsed_error)
        | false ↦ handle_message fuel c' bytes fds' (add64 needle ret)
      ]
  ]

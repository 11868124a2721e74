-- ===== src/Server/Parser.antt =====
-- CMessageParser for a server's client (src/core/message/MessageParser.cpp).
use hyprwire_debian.Base.{
  ℕ, zero, suc, ◌+◌, Bool, true, false, not, ◌&&◌, Option, List, [], ◌∷◌, ◌++◌, map, ltb, ◌==◌,
  if◌then◌else◌, length, add64,
}
use hyprwire_debian.Outcome.{Outcome, done, reject, crash, stuck, peek, ◌>>=◌}
use hyprwire_debian.Wire.MessageType
use hyprwire_debian.Wire.Decimal.{decimal}
use hyprwire_debian.Message.Hello.{parse_hello}
use hyprwire_debian.Message.Handshake.{
  parse_handshake_ack, encode_handshake_begin, encode_handshake_protocols,
}
use hyprwire_debian.Message.BindProtocol.{parse_bind_protocol}
use hyprwire_debian.Message.Numbers.{parse_roundtrip_request}
use hyprwire_debian.Message.Generic.{Generic, parse_generic}
use hyprwire_debian.WireObject.Spec.{Refusal, is_empty}
use hyprwire_debian.WireObject.Demarshal.{FfiType}
use hyprwire_debian.Server.State.{Implementation, ServerClient}
use hyprwire_debian.Server.Client.{dispatch_first_poll, send_message, create_object, on_generic}

-- What parseSingleMessage comes to: the client, the descriptors that are left (none are looked at
-- after a 0), and what it returns.
abbrev pub Parsed : Type 0
Parsed = ServerClient × List ℕ × ℕ

-- HYPRWIRE_PROTOCOL_VER
abbrev pub protocol_ver : ℕ
protocol_ver = 1

-- `if (!msg.m_len) return 0;` and what follows it.
abbrev pub decoded {ℓ κ} :
    {A : Type ℓ} {B : Type κ} → Outcome (A × ℕ) → B → (A → ℕ → Outcome B) → Outcome B
decoded (done (a, len)) none_of k = if len == 0 then done none_of else k a len
decoded reject none_of k = done none_of
decoded crash none_of k = crash
decoded stuck none_of k = stuck

-- eMessageParsingResult, as far as handleMessage returns it.
pub data Result : Type 0 where
  parsed_ok : Result
  parsed_error : Result
  parsed_stray_fds : Result

-- `std::format("{}@{}", impl->protocol()->specName(), impl->protocol()->specVer())`
unfoldable pub protocol_text : Implementation → List ℕ
protocol_text p = p.protocol.spec_name ++ b'@' ∷ decimal p.protocol.spec_ver

abbrev pub refuse_message : ServerClient → List ℕ → Parsed
refuse_message c fds = (record c { error = true }, fds, 0)

-- The cases of `parseSingleMessage` that take a message.
unfoldable pub on_hello : Option ℕ → ServerClient → List ℕ → List ℕ → ℕ → Outcome Parsed
on_hello peer c bytes fds off =
    decoded (do len ← parse_hello bytes off; done (tt {0}, len)) (c, fds, 0)
      (λ _ len. done (
        send_message (dispatch_first_poll peer c) (encode_handshake_begin (protocol_ver ∷ [])) [],
        fds,
        len,
      ))

unfoldable pub on_ack : List Implementation → ServerClient → List ℕ → List ℕ → ℕ → Outcome Parsed
unfolding protocol_text
on_ack impls c bytes fds off =
    decoded (parse_handshake_ack bytes off) (c, fds, 0)
      (λ version len. done (
        send_message (record c { version = version })
            (encode_handshake_protocols (map protocol_text impls)) [],
        fds,
        len,
      ))

unfoldable pub on_bind_message :
    List Implementation → ServerClient → List ℕ → List ℕ → ℕ → Outcome Parsed
on_bind_message impls c bytes fds off =
    decoded (parse_bind_protocol bytes off) (c, fds, 0)
      (λ msg len. done ((create_object impls c msg.protocol [] msg.version msg.seq).0, fds, len))

unfoldable pub on_roundtrip_request : ServerClient → List ℕ → List ℕ → ℕ → Outcome Parsed
on_roundtrip_request c bytes fds off =
    decoded (parse_roundtrip_request bytes off) (c, fds, 0)
      (λ seq len. done (record c { scheduled_roundtrip_seq = seq }, fds, len))

-- What stays the same for a server while it handles messages: the texts of refusals, what libffi
-- takes, the pid that `getsockopt` finds, and the implementations.
module _ (describe : Refusal → List ℕ) (prep_cif : List FfiType → Bool) (peer : Option ℕ)
    (impls : List Implementation) where
  unfoldable pub on_generic_message : ServerClient → List ℕ → List ℕ → ℕ → Outcome Parsed
  on_generic_message c bytes fds off =
      decoded {A = Generic × List ℕ}
        (do
          (msg, len, left) ← parse_generic (length bytes + 1) bytes fds off
          done ((msg, left), len))
        (c, fds, 0) (λ msg len. do c' ← on_generic describe prep_cif c msg.0; done (c', msg.1, len))

  -- CMessageParser::parseSingleMessage. The other codes, those of the messages that a server sends
  -- among them, are an error of the client. That `at(off)` throws is not caught.
  unfoldable pub parse_single_message : ServerClient → List ℕ → List ℕ → ℕ → Outcome Parsed
  unfolding on_generic_message on_hello on_ack on_bind_message on_roundtrip_request
  parse_single_message c bytes fds off = do
    code ← peek bytes off
    if code == MessageType.sup
        then on_hello peer c bytes fds off
        else if code == MessageType.handshake_ack
        then on_ack impls c bytes fds off
        else if code == MessageType.bind_protocol
        then on_bind_message impls c bytes fds off
        else if code == MessageType.generic_protocol_message
        then on_generic_message c bytes fds off
        else if code == MessageType.roundtrip_request
        then on_roundtrip_request c bytes fds off
        else done (refuse_message c fds)

  -- CMessageParser::handleMessage, on fuel: where no length wraps, each message that is taken moves
  -- `needle` on by a byte at least, and the buffer's length is fuel enough.
  unfoldable pub handle_message :
      ℕ → ServerClient → List ℕ → List ℕ → ℕ → Outcome (ServerClient × Result)
  unfolding parse_single_message
  handle_message zero c bytes fds needle = stuck
  handle_message (suc fuel) c bytes fds needle = elim (ltb needle (length bytes) && not c.error) [
    | false ↦ done (c, if is_empty fds then parsed_ok else parsed_stray_fds)
    | true ↦ do
      (c', fds', ret) ← parse_single_message c bytes fds needle
      elim (ret == 0) [
        | true ↦ done (c', parsed_error)
        | false ↦ handle_message fuel c' bytes fds' (add64 needle ret)
      ]
  ]

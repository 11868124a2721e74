-- ===== src/Message/Handshake.antt =====
-- HandshakeBegin.cpp, HandshakeAck.cpp and HandshakeProtocols.cpp of src/core/message/messages
use hyprwire_debian.Base.{ℕ, zero, suc, ◌+◌, ◌-◌, ◌*◌, List, [], ◌∷◌, ◌++◌, leb, length, u32_bytes}
use hyprwire_debian.Outcome.{
  Outcome, done, expect, read_u32, read_text, resize, ensure, finish, ◌>>=◌, ◌>>◌,
}
use hyprwire_debian.VarInt.{encode_var_int, parse_var_int}
use hyprwire_debian.Wire.Magic
use hyprwire_debian.Wire.MessageType

-- `n` words of four bytes, one after the other
unfoldable pub read_words : List ℕ → ℕ → ℕ → Outcome (List ℕ)
read_words bytes p zero = done []
read_words bytes p (suc n) = do v ← read_u32 bytes p; vs ← read_words bytes (p + 4) n; done (v ∷ vs)

unfoldable pub words_bytes : List ℕ → List ℕ
words_bytes [] = []
words_bytes (v ∷ vs) = u32_bytes v ++ words_bytes vs

-- CHandshakeBeginMessage(data, offset): the versions that the server supports.
unfoldable pub parse_handshake_begin : List ℕ → ℕ → Outcome (List ℕ × ℕ)
parse_handshake_begin bytes offset = do
  expect bytes (offset + 0) MessageType.handshake_begin
  expect bytes (offset + 1) Magic.array
  expect bytes (offset + 2) Magic.uint
  (n_vers, var_int_len) ← parse_var_int bytes (offset + 3)
  resize 4 n_vers
  versions ← read_words bytes (offset + 3 + var_int_len) n_vers
  finish bytes offset (3 + var_int_len + n_vers * 4) versions

-- CHandshakeBeginMessage(versions)
unfoldable pub encode_handshake_begin : List ℕ → List ℕ
encode_handshake_begin versions =
    MessageType.handshake_begin ∷ Magic.array ∷ Magic.uint ∷ []
    ++ (encode_var_int (length versions) ++ (words_bytes versions ++ Magic.end ∷ []))

-- CHandshakeAckMessage(data, offset): the version that the client chose. The size test comes
-- after the access to the byte behind the number.
unfoldable pub parse_handshake_ack : List ℕ → ℕ → Outcome (ℕ × ℕ)
parse_handshake_ack bytes offset = do
  expect bytes (offset + 0) MessageType.handshake_ack
  expect bytes (offset + 1) Magic.uint
  expect bytes (offset + 2 + 4) Magic.end
  ensure (leb 4 (length bytes - offset - 2))
  version ← read_u32 bytes (offset + 2)
  done (version, 7)

-- CHandshakeAckMessage(version)
unfoldable pub encode_handshake_ack : ℕ → List ℕ
encode_handshake_ack version =
    MessageType.handshake_ack ∷ Magic.uint ∷ [] ++ (u32_bytes version ++ Magic.end ∷ [])

-- The loop over the strings of CHandshakeProtocolsMessage(data, offset), with `needle` at the end.
unfoldable pub read_texts : List ℕ → ℕ → ℕ → ℕ → Outcome (List (List ℕ) × ℕ)
read_texts bytes offset needle zero = done ([], needle)
read_texts bytes offset needle (suc n) = do
  (str_len, str_len_len) ← parse_var_int bytes (offset + needle)
  text ← read_text bytes (offset + needle + str_len_len) str_len
  (texts, last) ← read_texts bytes offset (needle + str_len_len + str_len) n
  done (text ∷ texts, last)

-- CHandshakeProtocolsMessage(data, offset): the server's protocols, "name@version". A std::string
-- has 32 bytes.
unfoldable pub parse_handshake_protocols : List ℕ → ℕ → Outcome (List (List ℕ) × ℕ)
parse_handshake_protocols bytes offset = do
  expect bytes (offset + 0) MessageType.handshake_protocols
  expect bytes (offset + 1) Magic.array
  expect bytes (offset + 2) Magic.varchar
  (els, var_int_len) ← parse_var_int bytes (offset + 3)
  resize 32 els
  (protocols, needle) ← read_texts bytes offset (3 + var_int_len) els
  finish bytes offset needle protocols

-- A string as its length and its bytes; strings one after the other.
unfoldable pub text_bytes : List ℕ → List ℕ
text_bytes text = encode_var_int (length text) ++ text

unfoldable pub texts_bytes : List (List ℕ) → List ℕ
texts_bytes [] = []
texts_bytes (t ∷ ts) = text_bytes t ++ texts_bytes ts

-- CHandshakeProtocolsMessage(protocols)
unfoldable pub encode_handshake_protocols : List (List ℕ) → List ℕ
encode_handshake_protocols protocols =
    MessageType.handshake_protocols ∷ Magic.array ∷ Magic.varchar ∷ []
    ++ (encode_var_int (length protocols) ++ (texts_bytes protocols ++ Magic.end ∷ []))

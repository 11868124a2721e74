-- ===== src/Message/BindProtocol.antt =====
-- src/core/message/messages/BindProtocol.cpp
use hyprwire_debian.Base.{ℕ, ◌+◌, List, [], ◌∷◌, ◌++◌, not, ◌==◌, length, u32_bytes}
use hyprwire_debian.Outcome.{Outcome, expect, read_u32, read_text, ensure, finish, ◌>>=◌, ◌>>◌}
use hyprwire_debian.VarInt.{encode_var_int, parse_var_int}
use hyprwire_debian.Wire.Magic
use hyprwire_debian.Wire.MessageType

pub record Bind : Type 0 where
  pub protocol : List ℕ
  pub seq : ℕ
  pub version : ℕ

-- CBindProtocolMessage(data, offset)
unfoldable pub parse_bind_protocol : List ℕ → ℕ → Outcome (Bind × ℕ)
parse_bind_protocol bytes offset = do
  expect bytes (offset + 0) MessageType.bind_protocol
  expect bytes (offset + 1) Magic.uint
  seq ← read_u32 bytes (offset + 2)
  expect bytes (offset + 6) Magic.varchar
  (str_len, var_int_len) ← parse_var_int bytes (offset + 7)
  protocol ← read_text bytes (offset + 7 + var_int_len) str_len
  expect bytes (offset + 7 + var_int_len + str_len) Magic.uint
  version ← read_u32 bytes (offset + 7 + var_int_len + str_len + 1)
  ensure (not (version == 0))
  finish bytes offset (7 + var_int_len + str_len + 5)
      (record { protocol = protocol; seq = seq; version = version })

-- CBindProtocolMessage(protocol, seq, version)
unfoldable pub encode_bind_protocol : List ℕ → ℕ → ℕ → List ℕ
encode_bind_protocol protocol seq version =
    MessageType.bind_protocol ∷ Magic.uint ∷ []
    ++ (u32_bytes seq
        ++ (Magic.varchar ∷ encode_var_int (length protocol)
            ++ (protocol ++ (Magic.uint ∷ u32_bytes version ++ Magic.end ∷ []))))

-- ===== src/Message/FatalError.antt =====
-- src/core/message/messages/FatalProtocolError.cpp
use hyprwire_debian.Base.{ℕ, ◌+◌, List, [], ◌∷◌, ◌++◌, Option, none, some, length, u32_bytes}
use hyprwire_debian.Outcome.{Outcome, expect, read_u32, copy_text, finish, ◌>>=◌, ◌>>◌}
use hyprwire_debian.VarInt.{encode_var_int, parse_var_int}
use hyprwire_debian.Wire.Magic
use hyprwire_debian.Wire.MessageType

pub record FatalError : Type 0 where
  pub object_id : ℕ
  pub error_id : ℕ
  pub error_msg : List ℕ

-- CFatalErrorMessage(data, offset)
unfoldable pub parse_fatal_error : List ℕ → ℕ → Outcome (FatalError × ℕ)
parse_fatal_error bytes offset = do
  expect bytes (offset + 0) MessageType.fatal_protocol_error
  expect bytes (offset + 1) Magic.uint
  object_id ← read_u32 bytes (offset + 2)
  expect bytes (offset + 6) Magic.uint
  error_id ← read_u32 bytes (offset + 7)
  expect bytes (offset + 11) Magic.varchar
  (str_len, str_len_len) ← parse_var_int bytes (offset + 12)
  error_msg ← copy_text bytes (offset + 12 + str_len_len) str_len
  finish bytes offset (12 + str_len_len + str_len)
      (record { object_id = object_id; error_id = error_id; error_msg = error_msg })

-- The object's id, or the zeros that stand in the message where there is no object.
abbrev pub id_or_zero : Option ℕ → ℕ
id_or_zero none = 0
id_or_zero (some id) = id

-- CFatalErrorMessage(obj, errorId, msg), given the object's `m_id`
unfoldable pub encode_fatal_error : Option ℕ → ℕ → List ℕ → List ℕ
encode_fatal_error obj error_id msg =
    MessageType.fatal_protocol_error ∷ Magic.uint ∷ []
    ++ (u32_bytes (id_or_zero obj)
        ++ (Magic.uint ∷ u32_bytes error_id
            ++ (Magic.varchar ∷ encode_var_int (length msg) ++ (msg ++ Magic.end ∷ []))))

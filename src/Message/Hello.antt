-- ===== src/Message/Hello.antt =====
-- src/core/message/messages/Hello.cpp
use hyprwire_debian.Base.{ℕ, List, [], ◌∷◌, Bool, true, false, ◌&&◌, ◌==◌}
use hyprwire_debian.Outcome.{Outcome, done, at, copy_text, ensure, ◌>>=◌, ◌>>◌}
use hyprwire_debian.Wire.Magic
use hyprwire_debian.Wire.MessageType

unfoldable pub bytes_eq : List ℕ → List ℕ → Bool
bytes_eq [] [] = true
bytes_eq (x ∷ xs) (y ∷ ys) = x == y && bytes_eq xs ys
bytes_eq _ _ = false

-- CHelloMessage(): the client's greeting, "VAX".
unfoldable pub encode_hello : List ℕ
encode_hello = MessageType.sup ∷ Magic.varchar ∷ 0x03 ∷ b'V' ∷ b'A' ∷ b'X' ∷ Magic.end ∷ []

-- CHelloMessage(data, offset): `memcmp` takes seven bytes from `&data.at(offset)` on.
unfoldable pub parse_hello : List ℕ → ℕ → Outcome ℕ
parse_hello bytes offset = do
  first ← at bytes offset
  seven ← copy_text bytes offset 7
  ensure (bytes_eq encode_hello seven)
  done 7

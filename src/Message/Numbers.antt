-- ===== src/Message/Numbers.antt =====
-- The messages of a fixed size that hold numbers only: NewObject.cpp, RoundtripRequest.cpp and
-- RoundtripDone.cpp of src/core/message/messages
use hyprwire_debian.Base.{ℕ, ◌+◌, ◌-◌, List, [], ◌∷◌, ◌++◌, leb, length, u32_bytes}
use hyprwire_debian.Outcome.{Outcome, done, expect, read_u32, ensure, ◌>>=◌, ◌>>◌}
use hyprwire_debian.Wire.Magic
use hyprwire_debian.Wire.MessageType

pub record NewObject : Type 0 where
  pub seq : ℕ
  pub id : ℕ

-- CNewObjectMessage(data, offset). Past `at(offset + 1)` the subtraction does not wrap.
unfoldable pub parse_new_object : List ℕ → ℕ → Outcome (NewObject × ℕ)
parse_new_object bytes offset = do
  expect bytes (offset + 0) MessageType.new_object
  expect bytes (offset + 1) Magic.uint
  ensure (leb 4 (length bytes - offset - 2))
  id ← read_u32 bytes (offset + 2)
  expect bytes (offset + 6) Magic.uint
  seq ← read_u32 bytes (offset + 7)
  expect bytes (offset + 11) Magic.end
  done (record { seq = seq; id = id }, 12)

-- CNewObjectMessage(seq, id)
unfoldable pub encode_new_object : ℕ → ℕ → List ℕ
encode_new_object seq id =
    MessageType.new_object ∷ Magic.uint ∷ []
    ++ (u32_bytes id ++ (Magic.uint ∷ u32_bytes seq ++ Magic.end ∷ []))

-- CRoundtripRequestMessage(data, offset) and CRoundtripDoneMessage(data, offset) differ in the code.
unfoldable pub parse_roundtrip : ℕ → List ℕ → ℕ → Outcome (ℕ × ℕ)
parse_roundtrip code bytes offset = do
  expect bytes (offset + 0) code
  expect bytes (offset + 1) Magic.uint
  ensure (leb 4 (length bytes - offset - 2))
  seq ← read_u32 bytes (offset + 2)
  expect bytes (offset + 6) Magic.end
  done (seq, 7)

unfoldable pub parse_roundtrip_request : List ℕ → ℕ → Outcome (ℕ × ℕ)
parse_roundtrip_request = parse_roundtrip MessageType.roundtrip_request

unfoldable pub parse_roundtrip_done : List ℕ → ℕ → Outcome (ℕ × ℕ)
parse_roundtrip_done = parse_roundtrip MessageType.roundtrip_done

-- CRoundtripRequestMessage(seq) and CRoundtripDoneMessage(seq)
unfoldable pub encode_roundtrip_request : ℕ → List ℕ
encode_roundtrip_request seq =
    MessageType.roundtrip_request ∷ Magic.uint ∷ [] ++ (u32_bytes seq ++ Magic.end ∷ [])

unfoldable pub encode_roundtrip_done : ℕ → List ℕ
encode_roundtrip_done seq =
    MessageType.roundtrip_done ∷ Magic.uint ∷ [] ++ (u32_bytes seq ++ Magic.end ∷ [])

-- ===== src/Message/RoundTrip/Numbers.antt =====
-- The messages of a fixed size.
use hyprwire_debian.Base.{
  ℕ, ◌≡◌, ap, arith, List, ◌++◌, length, length-drop, drop, drop-add, IsU32, u32_of-bytes,
}
use hyprwire_debian.Outcome.{done, at, expect, read_u32, copy_text}
use hyprwire_debian.Message.Numbers.{
  parse_new_object, encode_new_object, parse_roundtrip, parse_roundtrip_request,
  encode_roundtrip_request, parse_roundtrip_done, encode_roundtrip_done,
}
use hyprwire_debian.Message.Handshake.{parse_handshake_ack, encode_handshake_ack}
use hyprwire_debian.Message.Hello.{parse_hello, encode_hello, bytes_eq}

-- The greeting of a client is accepted, with its seven bytes, wherever it stands in a buffer.
pub parse_hello-encode :
    (bytes : List ℕ) (offset : ℕ) (rest : List ℕ)
    → drop offset bytes ≡ encode_hello ++ rest
    → parse_hello bytes offset ≡ done 7
unfolding parse_hello encode_hello expect read_u32 at copy_text bytes_eq
parse_hello-encode bytes offset rest e = rw e (ground arith)

-- A HANDSHAKE_ACK message of a version of 32 bits is decoded to the version that was encoded, in
-- seven bytes, wherever it stands in a buffer.
pub parse_handshake_ack-encode :
    (version : ℕ) (bytes : List ℕ) (offset : ℕ) (rest : List ℕ)
    → IsU32 version
    → drop offset bytes ≡ encode_handshake_ack version ++ rest
    → parse_handshake_ack bytes offset ≡ done (version, 7)
unfolding parse_handshake_ack encode_handshake_ack expect read_u32 at copy_text bytes_eq
parse_handshake_ack-encode version bytes offset rest h e =
    simp (drop-add, e) (ground (arith, u32_of-bytes version, length-drop offset bytes, ap length e))

-- A NEW_OBJECT message of two numbers of 32 bits is decoded to the sequence number and the number
-- that were encoded, in twelve bytes, wherever it stands in a buffer.
pub parse_new_object-encode :
    (seq id : ℕ) (bytes : List ℕ) (offset : ℕ) (rest : List ℕ)
    → IsU32 seq
    → IsU32 id
    → drop offset bytes ≡ encode_new_object seq id ++ rest
    → parse_new_object bytes offset ≡ done (record { seq = seq; id = id }, 12)
unfolding parse_new_object encode_new_object expect read_u32 at copy_text bytes_eq
parse_new_object-encode seq id bytes offset rest hs hi e =
    simp (drop-add, e)
      (ground (arith, u32_of-bytes seq, u32_of-bytes id, length-drop offset bytes, ap length e))

-- A ROUNDTRIP_REQUEST message of a number of 32 bits is decoded to the number that was encoded, in
-- seven bytes, wherever it stands in a buffer.
pub parse_roundtrip_request-encode :
    (seq : ℕ) (bytes : List ℕ) (offset : ℕ) (rest : List ℕ)
    → IsU32 seq
    → drop offset bytes ≡ encode_roundtrip_request seq ++ rest
    → parse_roundtrip_request bytes offset ≡ done (seq, 7)
unfolding parse_roundtrip_request encode_roundtrip_request parse_roundtrip expect at read_u32
parse_roundtrip_request-encode seq bytes offset rest h e =
    simp (drop-add, e) (ground (arith, u32_of-bytes seq, length-drop offset bytes, ap length e))

-- A ROUNDTRIP_DONE message of a number of 32 bits is decoded to the number that was encoded, in
-- seven bytes, wherever it stands in a buffer.
pub parse_roundtrip_done-encode :
    (seq : ℕ) (bytes : List ℕ) (offset : ℕ) (rest : List ℕ)
    → IsU32 seq
    → drop offset bytes ≡ encode_roundtrip_done seq ++ rest
    → parse_roundtrip_done bytes offset ≡ done (seq, 7)
unfolding parse_roundtrip_done encode_roundtrip_done parse_roundtrip expect at read_u32
parse_roundtrip_done-encode seq bytes offset rest h e =
    simp (drop-add, e) (ground (arith, u32_of-bytes seq, length-drop offset bytes, ap length e))

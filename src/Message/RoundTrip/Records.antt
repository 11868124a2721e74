-- ===== src/Message/RoundTrip/Records.antt =====
-- The messages of numbers and one text.
use hyprwire_debian.Base.{
  ℕ, ◌+◌, ◌≡◌, ◌≢◌, refl, arith, List, [], ◌∷◌, ◌++◌, Option, length, length-append, drop, drop_eq,
  drop-add, IsU32, u32_bytes, ==_ne,
}
use hyprwire_debian.Outcome.{done}
use hyprwire_debian.Outcome.Laws.{drop_in, expect_in, expect_here, read_u32_in, finish_lem}
use hyprwire_debian.VarInt.{encode_var_int}
use hyprwire_debian.Message.RoundTrip.Text.{IsShort, prefix, TextAt, text_at}
use hyprwire_debian.Message.Handshake.{text_bytes}
use hyprwire_debian.Message.BindProtocol.{parse_bind_protocol, encode_bind_protocol}
use hyprwire_debian.Message.FatalError.{parse_fatal_error, encode_fatal_error, id_or_zero}
use mathlib.Core.List.{append_assoc}

-- A BIND_PROTOCOL message with a name below 2^28 bytes, numbers of 32 bits and a version that is
-- not 0 is decoded to what was encoded, with its length, wherever it stands in a buffer.
pub parse_bind_protocol-encode :
    (protocol : List ℕ) (seq version : ℕ) (bytes : List ℕ) (offset : ℕ) (rest : List ℕ)
    → IsShort protocol
    → IsU32 seq
    → IsU32 version
    → version ≢ 0
    → drop offset bytes ≡ encode_bind_protocol protocol seq version ++ rest
    → parse_bind_protocol bytes offset
      ≡ done (
        record { protocol = protocol; seq = seq; version = version },
        length (encode_bind_protocol protocol seq version),
      )
unfolding parse_bind_protocol encode_bind_protocol text_bytes
parse_bind_protocol-encode protocol seq version bytes offset rest hp hs hv nz e =
    rw
      (
        expect_in bytes offset _ e 0 10 refl,
        expect_in bytes offset _ e 1 0x10 refl,
        read_u32_in bytes offset _ e 2 seq _ hs refl,
        expect_in bytes offset _ e 6 0x20 refl,
        found.number,
        found.viewed,
        expect_here bytes behind tail found.behind 0x10 refl,
        read_u32_in bytes behind tail found.behind 1 version _ hv refl,
        ==_ne version 0 nz,
        finish_lem bytes offset (7 + prefix protocol + length protocol + 5) _ rest last,
      )
      (ground (
        arith,
        length-append (encode_var_int (length protocol))
            (protocol ++ (0x10 ∷ u32_bytes version ++ 0 ∷ [])),
        length-append protocol (0x10 ∷ u32_bytes version ++ 0 ∷ []),
      ))
  where
    tail : List ℕ
    tail = 0x10 ∷ u32_bytes version ++ 0 ∷ rest

    found : TextAt protocol bytes (offset + 7) tail
    found =
        text_at protocol bytes (offset + 7) tail hp (λ p. cc) (rw (drop-add, e) (simp append_assoc))

    behind : ℕ
    behind = offset + 7 + prefix protocol + length protocol

    last : drop (offset + (7 + prefix protocol + length protocol + 5)) bytes ≡ 0 ∷ rest
    last = drop_eq bytes (drop_in bytes behind tail found.behind 5) (omega arith)

-- A FATAL_PROTOCOL_ERROR message with numbers of 32 bits and a text below 2^28 bytes is decoded to
-- its object's number, or 0 without an object, its error and its text, with its length, wherever it
-- stands in a buffer.
pub parse_fatal_error-encode :
    (obj : Option ℕ) (error_id : ℕ) (msg bytes : List ℕ) (offset : ℕ) (rest : List ℕ)
    → IsU32 (id_or_zero obj)
    → IsU32 error_id
    → IsShort msg
    → drop offset bytes ≡ encode_fatal_error obj error_id msg ++ rest
    → parse_fatal_error bytes offset
      ≡ done (
        record { object_id = id_or_zero obj; error_id = error_id; error_msg = msg },
        length (encode_fatal_error obj error_id msg),
      )
unfolding parse_fatal_error encode_fatal_error text_bytes
parse_fatal_error-encode obj error_id msg bytes offset rest ho he hm e =
    rw
      (
        expect_in bytes offset _ e 0 12 refl,
        expect_in bytes offset _ e 1 0x10 refl,
        read_u32_in bytes offset _ e 2 (id_or_zero obj) _ ho refl,
        expect_in bytes offset _ e 6 0x10 refl,
        read_u32_in bytes offset _ e 7 error_id _ he refl,
        expect_in bytes offset _ e 11 0x20 refl,
        found.number,
        found.copied,
        finish_lem bytes offset (12 + prefix msg + length msg) _ rest
            (drop_eq bytes found.behind (omega arith)),
      )
      (ground (
        arith,
        length-append (encode_var_int (length msg)) (msg ++ 0 ∷ []),
        length-append msg (0 ∷ []),
      ))
  where
    found : TextAt msg bytes (offset + 12) (0 ∷ rest)
    found =
        text_at msg bytes (offset + 12) (0 ∷ rest) hm (λ p. cc)
          (rw (drop-add, e) (simp append_assoc))

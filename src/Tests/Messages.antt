-- ===== src/Tests/Messages.antt =====
-- The encodings of numbers and messages.
use hyprwire_debian.Base.{
  ℕ, ◌+◌, ◌≡◌, ◌^◌, ◌<◌, refl, arith, List, drop, [], ◌∷◌, ◌++◌, length, ◌%◌,
}
use hyprwire_debian.Outcome.{done, expect, at, read_u32}
use hyprwire_debian.VarInt.{encode_var_int, parse_var_int}
use hyprwire_debian.VarInt.RoundTrip.{base128, encode_var_int-base128, parse_var_int-encode}
use hyprwire_debian.Message.BindProtocol.{encode_bind_protocol, parse_bind_protocol}
use hyprwire_debian.Message.Generic.{parse_generic}
use hyprwire_debian.Message.Generic.Args.{args_bytes, args_fds, generic_bytes}
use hyprwire_debian.Message.Generic.RoundTrip.{parse_generic-encode}
use hyprwire_debian.Message.RoundTrip.Records.{parse_bind_protocol-encode}
use hyprwire_debian.Message.Numbers.{parse_new_object, encode_new_object}
use hyprwire_debian.Message.RoundTrip.Exact.{parse_new_object-exact}
use hyprwire_debian.Tests.Data.{five, five-IsArg}

encode_var_int-base128_example : encode_var_int 300 ≡ base128 3 (300 % 2 ^ 28)
encode_var_int-base128_example = encode_var_int-base128 300

parse_var_int-encode_example :
    parse_var_int (7 ∷ encode_var_int 300 ++ 9 ∷ []) 1 ≡ done (300, length (encode_var_int 300))
parse_var_int-encode_example =
    parse_var_int-encode 300 (7 ∷ encode_var_int 300 ++ 9 ∷ []) 1 (9 ∷ []) (omega arith) refl

parse_bind_protocol-encode_example :
    parse_bind_protocol (7 ∷ encode_bind_protocol (112 ∷ []) 3 1 ++ 9 ∷ []) 1
    ≡ done (
      record { protocol = 112 ∷ []; seq = 3; version = 1 },
      length (encode_bind_protocol (112 ∷ []) 3 1),
    )
parse_bind_protocol-encode_example =
    parse_bind_protocol-encode (112 ∷ []) 3 1 (7 ∷ encode_bind_protocol (112 ∷ []) 3 1 ++ 9 ∷ []) 1
      (9 ∷ []) (omega arith) (omega arith) (omega arith) (omega arith) refl

parse_generic-encode_example :
    parse_generic 2 (7 ∷ generic_bytes 1 0 five ++ 9 ∷ []) (args_fds five ++ 8 ∷ []) 1
    ≡ done (
      record {
        object = 1;
        depends_on_seq = 0;
        method = 0;
        span = args_bytes five ++ 0 ∷ 9 ∷ [];
        span_size = length (args_bytes five) + 1;
        fds = args_fds five;
      },
      length (generic_bytes 1 0 five),
      8 ∷ [],
    )
unfolding generic_bytes args_bytes
parse_generic-encode_example =
    parse_generic-encode 1 0 five (7 ∷ generic_bytes 1 0 five ++ 9 ∷ []) 1 2 (8 ∷ []) (9 ∷ [])
      (omega arith) (omega arith) five-IsArg (omega arith) (ground arith) refl

-- A NEW_OBJECT message that arrived, behind a byte.
abbrev arrived_bytes : List ℕ
arrived_bytes = 7 ∷ 11 ∷ 0x10 ∷ 8 ∷ 0 ∷ 0 ∷ 0 ∷ 0x10 ∷ 1 ∷ 2 ∷ 0 ∷ 0 ∷ 0 ∷ 9 ∷ []

arrived_bytes-parsed : parse_new_object arrived_bytes 1 ≡ done (record { seq = 513; id = 8 }, 12)
unfolding parse_new_object expect at read_u32
arrived_bytes-parsed = refl

parse_new_object-exact_example :
    (◌≡◌ {A = ℕ} 12 12)
    × (513 < 2 ^ 32)
    × (8 < 2 ^ 32)
    × (drop 1 arrived_bytes ≡ encode_new_object 513 8 ++ 9 ∷ [])
parse_new_object-exact_example =
    parse_new_object-exact arrived_bytes 1 (record { seq = 513; id = 8 }) 12 (omega arith)
      arrived_bytes-parsed

-- ===== src/VarInt/RoundTrip.antt =====
-- Numbers of up to 28 bits come back; larger ones lose their upper bits.
use hyprwire_debian.Base.{
  ℕ, zero, suc, ◌+◌, ◌/◌, ◌%◌, ◌^◌, ◌<◌, ◌≤◌, ◌≡◌, arith, List, [], ◌∷◌, ◌++◌, ltb, if◌then◌else◌,
  length, length-append, length-drop, drop, ap, ◌-◌, All, IsByte,
}
use hyprwire_debian.Outcome.{done}
use hyprwire_debian.VarInt.{encode_var_int, group, parse_var_int, parse_var_int_span, var_int_loop}

-- Groups of seven bits, the lowest first, with the top bit set on all but the last.
unfoldable pub base128 : ℕ → ℕ → List ℕ
base128 zero n = n ∷ []
base128 (suc k) n =
    let rest = base128 k (n / 128) in if ltb n 128 then n ∷ [] else (n % 128 + 128) ∷ rest

group_0 : (n : ℕ) → group n 25 ≡ n % 128 + 128
group_0 n = ground arith

group_1 : (n : ℕ) → group n 18 ≡ n / 128 % 128 + 128
group_1 n = ground arith

group_2 : (n : ℕ) → group n 11 ≡ n / 16384 % 128 + 128
group_2 n = ground arith

group_3 : (n : ℕ) → group n 4 ≡ n / 2097152 % 128 + 128
group_3 n = ground arith

-- encodeVarInt writes the shortest little-endian base-128 form of its number modulo 2^28, so that
-- it drops the bits above the lower 28.
pub encode_var_int-base128 : (n : ℕ) → encode_var_int n ≡ base128 3 (n % 2 ^ 28)
unfolding encode_var_int base128
encode_var_int-base128 n = rw (group_0 n, group_1 n, group_2 n, group_3 n) (ground arith)

-- The loop reads a base-128 number of up to four groups.
var_int_loop-base128 :
    (n len : ℕ) (rest : List ℕ)
    → n < 2 ^ 28
    → length (base128 3 n) ≤ len
    → var_int_loop (base128 3 n ++ rest) len 0 0 ≡ done (n, length (base128 3 n))
unfolding var_int_loop base128
var_int_loop-base128 n len rest h hl = ground arith

length-base128 : (n : ℕ) → (1 ≤ length (base128 3 n)) × (length (base128 3 n) ≤ 4)
unfolding base128
length-base128 n = ground arith

-- The encoding takes one to four bytes, each a byte.
pub encode_var_int_shape :
    (n : ℕ)
    → All IsByte (encode_var_int n)
      × (1 ≤ length (encode_var_int n))
      × (length (encode_var_int n) ≤ 4)
unfolding base128
encode_var_int_shape n = rw (encode_var_int-base128 n) (ground arith)

-- The loop on an encoding, whatever the size of the span, if that covers the encoding.
pub var_int_loop-encode :
    (n len : ℕ) (rest : List ℕ)
    → n < 2 ^ 28
    → length (encode_var_int n) ≤ len
    → var_int_loop (encode_var_int n ++ rest) len 0 0 ≡ done (n, length (encode_var_int n))
var_int_loop-encode n len rest h hl = rw short (var_int_loop-base128 n len rest h (rw short at hl))
  where
    same : n % 2 ^ 28 ≡ n
    same = omega arith

    short : encode_var_int n ≡ base128 3 n
    short = rw (encode_var_int-base128 n, same)

-- parseVarInt reads back a number below 2^28, with the length of its encoding, wherever
-- encodeVarInt's bytes stand in a buffer and whatever follows them.
pub parse_var_int-encode :
    (n : ℕ) (bytes : List ℕ) (offset : ℕ) (rest : List ℕ)
    → n < 2 ^ 28
    → drop offset bytes ≡ encode_var_int n ++ rest
    → parse_var_int bytes offset ≡ done (n, length (encode_var_int n))
unfolding parse_var_int
parse_var_int-encode n bytes offset rest h e = rw e (
    var_int_loop-encode n (length bytes - offset) rest h
      (omega (arith, length-drop offset bytes, ap length e, length-append (encode_var_int n) rest)))

pub parse_var_int_span-encode :
    (n : ℕ) (bytes : List ℕ) (start len : ℕ) (rest : List ℕ)
    → n < 2 ^ 28
    → length (encode_var_int n) ≤ len
    → drop start bytes ≡ encode_var_int n ++ rest
    → parse_var_int_span bytes start len ≡ done (n, length (encode_var_int n))
unfolding parse_var_int_span
parse_var_int_span-encode n bytes start len rest h hl e = rw e (var_int_loop-encode n len rest h hl)

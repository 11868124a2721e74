-- ===== src/VarInt.antt =====
-- CMessageParser::parseVarInt and encodeVarInt of src/core/message/MessageParser.cpp.
pub mod RoundTrip
pub mod Ends
use hyprwire_debian.Base.{
  ℕ, ◌+◌, ◌-◌, ◌*◌, ◌/◌, ◌%◌, ◌^◌, ◌&&◌, List, [], ◌∷◌, ltb, leb, ◌==◌, if◌then◌else◌, length, drop,
  add64,
}
use hyprwire_debian.Outcome.{Outcome, done, crash}

-- `(uint8_t(data[i] << 1) >> 1) << (i * 7)`, an `int`, as the `size_t` that it is added as: from
-- 2^31 on the int is negative, and becomes a number near 2^64.
unfoldable pub var_int_term : ℕ → ℕ → ℕ
var_int_term b i =
    let w = (b * 2 % 256 / 2) * 2 ^ (i * 7) % 2 ^ 32 in
    if ltb w (2 ^ 31) then w else w + (2 ^ 64 - 2 ^ 32)

-- The loop of parseVarInt: `bytes` is the memory from `data[i]` to the end of the vector, and `len`
-- the size of the span, which need not be what the vector has left. A shift of an int by 32 or more
-- is undefined. `b & 0x80` of a byte is `128 ≤ b`.
unfoldable pub var_int_loop : List ℕ → ℕ → ℕ → ℕ → Outcome (ℕ × ℕ)
unfolding var_int_term add64
var_int_loop [] len i rolling = crash
var_int_loop (b ∷ bs) len i rolling =
    let rolling' = add64 rolling (var_int_term b i) in
    let more = var_int_loop bs len (i + 1) rolling' in
    if leb 32 (i * 7)
    then crash
    else if ltb (i + 1) len && leb 128 b
    then more
    else done (rolling', i + 1)

-- parseVarInt(span{&data[start], len}) and parseVarInt(data, offset): the value, and the number of
-- bytes that it takes.
unfoldable pub parse_var_int_span : List ℕ → ℕ → ℕ → Outcome (ℕ × ℕ)
unfolding var_int_loop
parse_var_int_span bytes start len = var_int_loop (drop start bytes) len 0 0

unfoldable pub parse_var_int : List ℕ → ℕ → Outcome (ℕ × ℕ)
unfolding parse_var_int_span
parse_var_int bytes offset = parse_var_int_span bytes offset (length bytes - offset)

-- `b | 0x80` of a byte
abbrev set_top_bit : ℕ → ℕ
set_top_bit b = if ltb b 128 then b + 128 else b

-- `while (data.back() == 0x80 && data.size() > 1) data.pop_back();`
pop_back_tail : List ℕ → List ℕ
pop_back_tail [] = []
pop_back_tail (b ∷ bs) = elim (pop_back_tail bs) [
  | [] ↦ if b == 0x80 then [] else b ∷ []
  | c ∷ cs ↦ b ∷ c ∷ cs
]

pop_back_padding : List ℕ → List ℕ
unfolding pop_back_tail
pop_back_padding [] = []
pop_back_padding (b ∷ bs) = b ∷ pop_back_tail bs

-- `data.back() &= ~0x80;`
clear_back : List ℕ → List ℕ
clear_back [] = []
clear_back (b ∷ []) = b % 128 ∷ []
clear_back (b ∷ c ∷ cs) = b ∷ clear_back (c ∷ cs)

-- The four groups of `encodeVarInt`, of a 64-bit `num`.
abbrev group : ℕ → ℕ → ℕ
group num s = set_top_bit (num * 2 ^ s % 2 ^ 64 / 2 ^ 25 % 256)

-- encodeVarInt
unfoldable pub encode_var_int : ℕ → List ℕ
unfolding pop_back_padding clear_back
encode_var_int num =
    clear_back (pop_back_padding (group num 25 ∷ group num 18 ∷ group num 11 ∷ group num 4 ∷ []))

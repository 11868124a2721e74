-- ===== src/Wire/Decimal.antt =====
-- Numbers in texts, as `std::format("{}", n)` writes them and `std::stoul` reads them.
pub mod RoundTrip
use hyprwire_debian.Base.{
  ℕ, zero, suc, ◌+◌, ◌-◌, ◌*◌, ◌/◌, ◌%◌, ◌^◌, Bool, true, false, ◌&&◌, ◌||◌, List, [], ◌∷◌, ◌++◌,
  ltb, leb, ◌==◌, if◌then◌else◌,
}
use hyprwire_debian.Outcome.{Outcome, done, reject, ◌>>=◌}

abbrev pub with_digit : Bool → List ℕ → ℕ → List ℕ
with_digit more front n = elim more [
  | true ↦ front ++ (48 + n % 10) ∷ []
  | false ↦ (48 + n % 10) ∷ []
]

unfoldable pub decimal_digits : ℕ → ℕ → List ℕ
decimal_digits zero n = []
decimal_digits (suc fuel) n = with_digit (leb 10 n) (decimal_digits fuel (n / 10)) n

-- Ten digits are enough for 32 bits.
unfoldable pub decimal : ℕ → List ℕ
decimal n = decimal_digits 10 n

unfoldable pub is_digit : ℕ → Bool
is_digit c = leb 48 c && leb c 57

-- The digits up to the first other character.
unfoldable pub read_digits : ℕ → List ℕ → ℕ
read_digits n [] = n
read_digits n (c ∷ cs) = elim (is_digit c) [ true ↦ read_digits (10 * n + (c - 48)) cs | false ↦ n ]

-- `reject` is invalid_argument, where there is no digit, or out_of_range.
abbrev pub in_range : ℕ → Outcome ℕ
in_range n = if ltb n (2 ^ 64) then done n else reject

unfoldable pub read_number : List ℕ → Outcome ℕ
unfolding is_digit read_digits
read_number [] = reject
read_number (c ∷ cs) = if is_digit c then in_range (read_digits 0 (c ∷ cs)) else reject

-- A sign, which `strtoul` takes; the number after a minus is negated modulo 2 ^ 64.
unfoldable pub read_signed : List ℕ → Outcome ℕ
unfolding read_number
read_signed [] = reject
read_signed (c ∷ cs) =
    if c == b'-'
    then (do n ← read_number cs; done ((2 ^ 64 - n) % 2 ^ 64))
    else if c == b'+'
    then read_number cs
    else read_number (c ∷ cs)

-- The white space of the C locale is passed over.
unfoldable pub is_space : ℕ → Bool
is_space c = c == 32 || (leb 9 c && leb c 13)

unfoldable pub stoul : List ℕ → Outcome ℕ
unfolding is_space read_signed
stoul [] = reject
stoul (c ∷ cs) = elim (is_space c) [ true ↦ stoul cs | false ↦ read_signed (c ∷ cs) ]

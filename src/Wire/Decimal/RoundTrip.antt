-- ===== src/Wire/Decimal/RoundTrip.antt =====
-- A number that is written in digits and read again.
use hyprwire_debian.Base.{
  ℕ, zero, suc, ◌+◌, ◌*◌, ◌/◌, ◌%◌, ◌≤◌, ◌<◌, ◌≡◌, refl, arith, true, false, List, [], ◌∷◌, ◌++◌,
  leb, IsU32, Bool,
}
use hyprwire_debian.Outcome.{done}
use hyprwire_debian.Wire.Decimal.{
  with_digit, decimal_digits, decimal, is_digit, read_digits, in_range, read_number, read_signed,
  is_space, stoul,
}
use mathlib.Core.List.{append_assoc, append-nil}

-- What so many digits can hold.
abbrev reach : ℕ → ℕ
reach zero = 1
reach (suc fuel) = 10 * reach fuel

read_digits-decimal_digits :
    (fuel n : ℕ) (rest : List ℕ)
    → n < reach fuel
    → read_digits 0 (decimal_digits fuel n ++ rest) ≡ read_digits n rest
unfolding decimal_digits read_digits is_digit
read_digits-decimal_digits zero n rest h = let e : n ≡ 0 = omega arith in rw e refl
read_digits-decimal_digits (suc fuel) n rest h =
    let last = 48 + n % 10 in
    let front = decimal_digits fuel (n / 10) in
    ground (
      arith,
      append_assoc front (last ∷ []) rest,
      read_digits-decimal_digits fuel (n / 10) (last ∷ rest) (omega arith),
    )

-- What is written begins with a digit, even where the fuel is short.
record Starts (text : List ℕ) : Type 0 where
  digit : ℕ
  others : List ℕ
  begins : text ≡ digit ∷ others
  low : 48 ≤ digit
  high : digit ≤ 57

last-Starts : (n : ℕ) → Starts ((48 + n % 10) ∷ [])
last-Starts n = record {
  digit = 48 + n % 10;
  others = [];
  begins = refl;
  low = omega arith;
  high = omega arith;
}

with_digit-Starts :
    (more : Bool) (front : List ℕ) (n : ℕ) → Starts front → Starts (with_digit more front n)
with_digit-Starts true front n s = record {
  digit = s.digit;
  others = s.others ++ (48 + n % 10) ∷ [];
  begins = rw s.begins refl;
  low = s.low;
  high = s.high;
}
with_digit-Starts false front n s = last-Starts n

with_digit-nil-Starts : (more : Bool) (n : ℕ) → Starts (with_digit more [] n)
with_digit-nil-Starts true n = last-Starts n
with_digit-nil-Starts false n = last-Starts n

decimal_digits-Starts : (fuel n : ℕ) → Starts (decimal_digits (suc fuel) n)
unfolding decimal_digits
decimal_digits-Starts zero n = with_digit-nil-Starts (leb 10 n) n
decimal_digits-Starts (suc fuel) n =
    with_digit-Starts (leb 10 n) (decimal_digits (suc fuel) (n / 10)) n
      (decimal_digits-Starts fuel (n / 10))

stoul-digits :
    (c : ℕ) (cs : List ℕ) → 48 ≤ c → c ≤ 57 → stoul (c ∷ cs) ≡ in_range (read_digits 0 (c ∷ cs))
unfolding stoul read_signed read_number is_space is_digit
stoul-digits c cs low high = ground arith

-- std::stoul reads back a number of 32 bits that std::format wrote.
pub stoul-decimal : (n : ℕ) → IsU32 n → stoul (decimal n) ≡ done n
unfolding decimal
stoul-decimal n h =
    let s = decimal_digits-Starts 9 n in
    rw
      (
        s.begins,
        stoul-digits s.digit s.others s.low s.high,
        ← s.begins,
        ← append-nil (decimal_digits 10 n),
        read_digits-decimal_digits 10 n [] (omega arith),
      )
      (unfold read_digits in ground arith)

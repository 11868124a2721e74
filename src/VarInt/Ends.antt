-- ===== src/VarInt/Ends.antt =====
-- What parseVarInt (src/core/message/MessageParser.cpp) takes, and where its numbers are small.
use hyprwire_debian.Base.{
  ℕ, ◌+◌, ◌*◌, ◌^◌, ◌<◌, ◌≤◌, ◌≡◌, refl, arith, ◌&&◌, List, [], ◌∷◌, length, drop, drop_cons-lt,
  add64, ltb, leb, Bool-cases, inl, inr, All, All-drop,
}
use hyprwire_debian.Outcome.{Outcome, done, reject, crash, stuck}
use hyprwire_debian.Outcome.Ends.{Ends, Ends-if, Ends-weaken}
use hyprwire_debian.VarInt.{parse_var_int_span, var_int_loop, var_int_term}

-- parseVarInt takes one byte at least, and no more than five.
abbrev Taken : ℕ → ℕ × ℕ → Type 0
Taken i r = (i < r.1) × (r.1 ≤ 5)

var_int_loop-Taken :
    (bytes : List ℕ) (len i rolling : ℕ) → Ends (Taken i) (var_int_loop bytes len i rolling)
unfolding var_int_loop
var_int_loop-Taken [] len i rolling = tt
var_int_loop-Taken (b ∷ bs) len i rolling =
    let rolling' = add64 rolling (var_int_term b i) in
    elim (Bool-cases (leb 32 (i * 7))) [
      | inl e ↦ rw e tt
      | inr e ↦
          let small : i ≤ 4 = ground (arith, e) in
          rw e (
            Ends-if (Taken i) (ltb (i + 1) len && leb 128 b) _ (done (rolling', i + 1))
              (Ends-weaken (Taken (i + 1)) (Taken i) (var_int_loop bs len (i + 1) rolling')
                (var_int_loop-Taken bs len (i + 1) rolling') (λ r h. (omega (arith, h.0), h.1)))
              (omega arith, omega (arith, small)))
    ]

-- No number in the buffer is near 2^64, wherever and through whichever span it is read.
abbrev pub NoHuge : List ℕ → Type 0
NoHuge bytes = (p len : ℕ) → Ends (λ r. r.0 < 2 ^ 60) (parse_var_int_span bytes p len)

-- A number that was read begins inside the buffer.
abbrev pub Read : List ℕ → ℕ → ℕ × ℕ → Type 0
Read bytes p r = (p < length bytes) × (r.0 < 2 ^ 60) × (0 < r.1) × (r.1 ≤ 5)

Ends-and :
    {A : Type 0} (P Q : A → Type 0) (m : Outcome A) → Ends P m → Ends Q m → Ends (λ a. P a × Q a) m
Ends-and P Q (done a) h k = (h, k)
Ends-and P Q reject h k = tt
Ends-and P Q crash h k = tt
Ends-and P Q stuck h k = h

begins :
    (bytes rest : List ℕ) (p len : ℕ)
    → drop p bytes ≡ rest
    → Ends (λ r. p < length bytes) (var_int_loop rest len 0 0)
unfolding var_int_loop
begins bytes [] p len e = tt
begins bytes (b ∷ bs) p len e =
    Ends-weaken (Taken 0) (λ r. p < length bytes) _ (var_int_loop-Taken (b ∷ bs) len 0 0)
      (λ r h. drop_cons-lt p bytes e)

pub span-Read :
    (bytes : List ℕ) (p len : ℕ)
    → NoHuge bytes
    → Ends (Read bytes p) (parse_var_int_span bytes p len)
unfolding parse_var_int_span
span-Read bytes p len h =
    let loop = var_int_loop (drop p bytes) len 0 0 in
    Ends-weaken _ (Read bytes p) loop
      (Ends-and (λ r. p < length bytes) _ loop (begins bytes (drop p bytes) p len refl)
        (Ends-and (λ r. r.0 < 2 ^ 60) (Taken 0) loop (h p len)
          (var_int_loop-Taken (drop p bytes) len 0 0)))
      (λ r k. (k.0, k.1.0, k.1.1.0, k.1.1.1))

low-loop :
    (bs : List ℕ) (len : ℕ)
    → All (λ b. b < 128) bs
    → Ends (λ r. r.0 < 2 ^ 60) (var_int_loop bs len 0 0)
unfolding var_int_loop
low-loop [] len h = tt
low-loop (b ∷ bs) len h = ground (arith, h.0)

-- Bytes without a top bit make no number of more than one byte.
pub low-NoHuge : (bytes : List ℕ) → All (λ b. b < 128) bytes → NoHuge bytes
unfolding parse_var_int_span
low-NoHuge bytes h p len = low-loop (drop p bytes) len (All-drop (λ b. b < 128) p bytes h)

-- ===== src/Outcome.antt =====
-- What a decoder of src/core/message comes to, and the ways in which it reads its buffer, a
-- `std::vector<uint8_t>` of bytes.
pub mod Laws
pub mod Results
pub mod Ends
use hyprwire_debian.Base.{
  ℕ, suc, ◌+◌, ◌*◌, ◌-◌, ◌^◌, Bool, true, false, List, [], ◌∷◌, leb, ◌==◌, if◌then◌else◌, take,
  drop, length, u32_of,
}

-- `done a`: decoded. `reject`: the constructor of the message returned early, or `at` threw the
-- out_of_range that it catches; its `m_len` is 0. `crash`: undefined behaviour (a read outside the
-- buffer, a shift that is too wide) or an exception that nothing catches. `stuck` is no outcome of
-- the code: the loop of a generic message ran out of the model's fuel.
pub data Outcome {ℓ} (A : Type ℓ) : Type ℓ where
  done : A → Outcome A
  reject : Outcome A
  crash : Outcome A
  stuck : Outcome A

infixl 5 ◌>>=◌ ◌>>◌
abbrev pub ◌>>=◌ {ℓ κ} : {A : Type ℓ} {B : Type κ} → Outcome A → (A → Outcome B) → Outcome B
done a >>= f = f a
reject >>= f = reject
crash >>= f = crash
stuck >>= f = stuck

abbrev pub ◌>>◌ {ℓ κ} : {A : Type ℓ} {B : Type κ} → Outcome A → Outcome B → Outcome B
m >> n = m >>= λ _. n

-- The first byte of what is left of the buffer.
abbrev pub first_or : Outcome ℕ → List ℕ → Outcome ℕ
first_or o [] = o
first_or o (b ∷ bs) = done b

-- `data.at(i)`, and `data[i]`, which does not check.
unfoldable pub at : List ℕ → ℕ → Outcome ℕ
at bytes i = first_or reject (drop i bytes)

unfoldable pub peek : List ℕ → ℕ → Outcome ℕ
peek bytes i = first_or crash (drop i bytes)

-- `if (!test) return;`
abbrev pub ensure : Bool → Outcome (Unit {0})
ensure true = done tt
ensure false = reject

-- `if (data.at(i) != code) return;`
unfoldable pub expect : List ℕ → ℕ → ℕ → Outcome (Unit {0})
unfolding at
expect bytes i code = do b ← at bytes i; ensure (b == code)

-- `std::memcpy(&v, &data.at(i), 4)`: `at` checks the first byte, and none the three behind it.
abbrev pub first_u32 : List ℕ → Outcome ℕ
first_u32 [] = reject
first_u32 (a ∷ b ∷ c ∷ d ∷ bs) = done (u32_of a b c d)
first_u32 _ = crash

unfoldable pub read_u32 : List ℕ → ℕ → Outcome ℕ
read_u32 bytes i = first_u32 (drop i bytes)

-- `std::string{data.data() + i, n}`: `n` bytes are copied, wherever the buffer ends.
unfoldable pub copy_text : List ℕ → ℕ → ℕ → Outcome (List ℕ)
copy_text bytes i n = if leb n (length (drop i bytes)) then done (take n (drop i bytes)) else crash

abbrev pub text_of : ℕ → List ℕ → Outcome (List ℕ)
text_of n [] = reject
text_of n (b ∷ bs) = if leb n (suc (length bs)) then done (take n (b ∷ bs)) else crash

-- `std::string_view{&data.at(i), n}`, copied into a string.
unfoldable pub read_text : List ℕ → ℕ → ℕ → Outcome (List ℕ)
read_text bytes i n = text_of n (drop i bytes)

-- `v.resize(n)` throws length_error, which nothing catches, when `n` elements of `size` bytes are
-- more than a vector can hold. Below that the memory is taken to be there.
unfoldable pub resize : ℕ → ℕ → Outcome (Unit {0})
resize size n = if leb (n * size) (2 ^ 63 - 1) then done tt else crash

-- Each decoder ends so: `if (data.at(offset + needle) != END) return; m_len = needle + 1;`
unfoldable pub finish {ℓ} : {A : Type ℓ} → List ℕ → ℕ → ℕ → A → Outcome (A × ℕ)
unfolding expect
finish bytes offset needle a = do expect bytes (offset + needle) 0; done (a, needle + 1)

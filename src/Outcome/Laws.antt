-- ===== src/Outcome/Laws.antt =====
-- Reads at a position whose bytes are known, and inversion of a chain of reads.
use hyprwire_debian.Base.{
  ℕ, ◌+◌, ◌≢◌, ◌*◌, ◌^◌, ◌≤◌, ◌<◌, ◌≡◌, refl, arith, List, [], ◌∷◌, ◌++◌, drop, length,
  length-append, take-length_append, IsU32, u32_bytes, u32_of-bytes, drop-add, ap, ◌∙◌, ◌-◌, le→leb,
}
use native.Mathlib.Nat.{mul-le-mul_left}
use hyprwire_debian.Outcome.{
  Outcome, done, reject, crash, stuck, ◌>>=◌, at, expect, read_u32, read_text, copy_text, resize,
  finish, first_or,
}

pub >>=-eq-done {ℓ κ} :
    {A : Type ℓ} {B : Type κ} (m : Outcome A) (f : A → Outcome B) {b : B}
    → (m >>= f) ≡ done b
    → (a : A) × (m ≡ done a) × (f a ≡ done b)
>>=-eq-done (done a) f h = (a, refl, h)
>>=-eq-done reject f h = cc
>>=-eq-done crash f h = cc
>>=-eq-done stuck f h = cc

-- Reads inside a message `msg` that stands at `offset`; the premise computes for a numeral `k`.
module _ (bytes : List ℕ) (offset : ℕ) (msg : List ℕ) (found : drop offset bytes ≡ msg) where
  pub drop_in : (k : ℕ) → drop (offset + k) bytes ≡ drop k msg
  drop_in k = drop-add offset k bytes ∙ ap (drop k) found

  pub expect_in :
      (k b : ℕ) → first_or reject (drop k msg) ≡ done b → expect bytes (offset + k) b ≡ done tt
  unfolding expect at
  expect_in k b h = rw (drop_in k, h) (ground arith)

  pub expect_here : (b : ℕ) → first_or reject msg ≡ done b → expect bytes offset b ≡ done tt
  unfolding expect at
  expect_here b h = rw (found, h) (ground arith)

  pub read_u32_in :
      (k v : ℕ) (rest : List ℕ)
      → IsU32 v
      → drop k msg ≡ u32_bytes v ++ rest
      → read_u32 bytes (offset + k) ≡ done v
  unfolding read_u32
  read_u32_in k v rest h e = rw (drop_in k, e) (ground (arith, u32_of-bytes v))

module _ (bytes : List ℕ) (p : ℕ) where
  pub at_lem : (b : ℕ) (rest : List ℕ) → drop p bytes ≡ b ∷ rest → at bytes p ≡ done b
  unfolding at
  at_lem b rest e = rw e

  pub copy_text_lem :
      (text rest : List ℕ)
      → drop p bytes ≡ text ++ rest
      → copy_text bytes p (length text) ≡ done text
  unfolding copy_text
  copy_text_lem text rest e =
      rw e (ground (arith, take-length_append text rest, length-append text rest))

  -- A text is read where it stands, if a byte follows it.
  pub read_text_lem :
      (text tail : List ℕ)
      → tail ≢ []
      → drop p bytes ≡ text ++ tail
      → read_text bytes p (length text) ≡ done text
  unfolding read_text
  read_text_lem [] [] h e = absurd (h refl)
  read_text_lem [] (b ∷ tail) h e = rw e (ground arith)
  read_text_lem (c ∷ text) tail h e =
      rw e (ground (arith, take-length_append text tail, length-append text tail))

pub append_cons-ne-nil : (xs : List ℕ) (y : ℕ) (ys : List ℕ) → xs ++ y ∷ ys ≢ []
append_cons-ne-nil [] y ys e = cc
append_cons-ne-nil (x ∷ xs) y ys e = cc

pub resize_lem : (size n : ℕ) → size ≤ 32 → n < 2 ^ 28 → resize size n ≡ done tt
unfolding resize
resize_lem size n hs hn = rw (le→leb (n * size) (2 ^ 63 - 1) small)
  where
    small : n * size ≤ 2 ^ 63 - 1
    small = omega (arith, mul-le-mul_left n hs)

pub finish_lem {ℓ} :
    {A : Type ℓ} (bytes : List ℕ) (offset needle : ℕ) (a : A) (rest : List ℕ)
    → drop (offset + needle) bytes ≡ 0 ∷ rest
    → finish bytes offset needle a ≡ done (a, needle + 1)
unfolding finish expect at
finish_lem bytes offset needle a rest e = simp e (ground arith)

pub append-ne-nil : (xs ys : List ℕ) → ys ≢ [] → xs ++ ys ≢ []
append-ne-nil [] ys ne e = ne e
append-ne-nil (x ∷ xs) ys ne e = cc

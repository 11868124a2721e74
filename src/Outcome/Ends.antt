-- ===== src/Outcome/Ends.antt =====
-- An outcome that is not `stuck`, with a predicate on what it holds, if it holds something.
use hyprwire_debian.Base.{
  ℕ, ◌<◌, ◌≡◌, ◌≢◌, ◌==◌, refl, Bool, true, false, if◌then◌else◌, List, [], ◌∷◌, length, drop,
  drop_cons-lt,
}
use hyprwire_debian.Outcome.{
  Outcome, done, reject, crash, stuck, ◌>>=◌, at, first_or, first_u32, ensure, expect, read_u32,
}

abbrev pub Ends {ℓ} : {A : Type ℓ} → (A → Type 0) → Outcome A → Type 0
Ends P (done a) = P a
Ends P reject = Unit
Ends P crash = Unit
Ends P stuck = ⊥

pub Ends->>= {ℓ κ} :
    {A : Type ℓ} {B : Type κ} (Q : A → Type 0) (P : B → Type 0) (m : Outcome A) (f : A → Outcome B)
    → Ends Q m
    → ((a : A) → Q a → Ends P (f a))
    → Ends P (m >>= f)
Ends->>= Q P (done a) f h k = k a h
Ends->>= Q P reject f h k = tt
Ends->>= Q P crash f h k = tt
Ends->>= Q P stuck f h k = absurd h

pub Ends-if {ℓ} :
    {A : Type ℓ} (P : A → Type 0) (b : Bool) (m n : Outcome A)
    → Ends P m
    → Ends P n
    → Ends P (if b then m else n)
Ends-if P true m n h k = h
Ends-if P false m n h k = k

pub Ends-ne {ℓ} : {A : Type ℓ} (P : A → Type 0) (m : Outcome A) → Ends P m → m ≢ stuck
Ends-ne P (done a) h e = cc
Ends-ne P reject h e = cc
Ends-ne P crash h e = cc
Ends-ne P stuck h e = absurd h

pub Ends-weaken {ℓ} :
    {A : Type ℓ} (Q P : A → Type 0) (m : Outcome A) → Ends Q m → ((a : A) → Q a → P a) → Ends P m
Ends-weaken Q P (done a) h k = k a h
Ends-weaken Q P reject h k = tt
Ends-weaken Q P crash h k = tt
Ends-weaken Q P stuck h k = h

-- The reads of a buffer end, and what is read stands inside.
first-inside :
    (bytes rest : List ℕ) (p : ℕ)
    → drop p bytes ≡ rest
    → Ends (λ t. p < length bytes) (first_or reject rest)
first-inside bytes [] p e = tt
first-inside bytes (b ∷ bs) p e = drop_cons-lt p bytes e

pub at-inside : (bytes : List ℕ) (p : ℕ) → Ends (λ t. p < length bytes) (at bytes p)
unfolding at
at-inside bytes p = first-inside bytes (drop p bytes) p refl

pub at-Ends : (bytes : List ℕ) (p : ℕ) → Ends (λ t. Unit) (at bytes p)
at-Ends bytes p = Ends-weaken _ (λ t. Unit) (at bytes p) (at-inside bytes p) (λ t h. tt)

ensure-Ends : (b : Bool) → Ends (λ t. Unit) (ensure b)
ensure-Ends true = tt
ensure-Ends false = tt

pub expect-Ends : (bytes : List ℕ) (p b : ℕ) → Ends (λ t. Unit) (expect bytes p b)
unfolding expect
expect-Ends bytes p b =
    Ends->>= (λ t. Unit) (λ t. Unit) (at bytes p) _ (at-Ends bytes p) (λ t u. ensure-Ends (t == b))

first_u32-Ends : (bs : List ℕ) → Ends (λ t. Unit) (first_u32 bs)
first_u32-Ends [] = tt
first_u32-Ends (a ∷ []) = tt
first_u32-Ends (a ∷ b ∷ []) = tt
first_u32-Ends (a ∷ b ∷ c ∷ []) = tt
first_u32-Ends (a ∷ b ∷ c ∷ d ∷ bs) = tt

pub read_u32-Ends : (bytes : List ℕ) (p : ℕ) → Ends (λ t. Unit) (read_u32 bytes p)
unfolding read_u32
read_u32-Ends bytes p = first_u32-Ends (drop p bytes)

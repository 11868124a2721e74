-- ===== src/Outcome/Results.antt =====
-- A predicate on what an outcome holds, if it holds something.
use hyprwire_debian.Base.{◌≡◌, Bool, true, false, if◌then◌else◌, Option, none, some}
use hyprwire_debian.Outcome.{Outcome, done, reject, crash, stuck, ◌>>=◌}

abbrev pub Results {ℓ κ} : {A : Type ℓ} → (A → Type κ) → Outcome A → Type κ
Results P (done a) = P a
Results P reject = Unit
Results P crash = Unit
Results P stuck = Unit

pub Results->>= {ℓ κ μ} :
    {A : Type ℓ} {B : Type κ} (P : B → Type μ) (m : Outcome A) (f : A → Outcome B)
    → ((a : A) → Results P (f a))
    → Results P (m >>= f)
Results->>= P (done a) f h = h a
Results->>= P reject f h = tt
Results->>= P crash f h = tt
Results->>= P stuck f h = tt

pub Results-done {ℓ κ} :
    {A : Type ℓ} (P : A → Type κ) (m : Outcome A) (a : A) → Results P m → m ≡ done a → P a
Results-done P m a h e = rw e at h

pub Results-if {ℓ κ} :
    {A : Type ℓ} (P : A → Type κ) (b : Bool) (m n : Outcome A)
    → Results P m
    → Results P n
    → Results P (if b then m else n)
Results-if P true m n h k = h
Results-if P false m n h k = k

pub Results-option {ℓ κ μ} :
    {A : Type ℓ} {X : Type μ} (P : A → Type κ) (o : Option X) (n : Outcome A) (s : X → Outcome A)
    → Results P n
    → ((x : X) → Results P (s x))
    → Results P (elim o [ none ↦ n | some x ↦ s x ])
Results-option P none n s h k = h
Results-option P (some x) n s h k = k x

pub Results-elim {ℓ κ} :
    {A : Type ℓ} (P : A → Type κ) (b : Bool) (m n : Outcome A)
    → Results P m
    → Results P n
    → Results P (elim b [ true ↦ m | false ↦ n ])
Results-elim P true m n h k = h
Results-elim P false m n h k = k

pub Results-bind {ℓ κ μ ν} :
    {A : Type ℓ} {B : Type κ} (P : A → Type μ) (Q : B → Type ν) (m : Outcome A) (f : A → Outcome B)
    → Results P m
    → ((a : A) → P a → Results Q (f a))
    → Results Q (m >>= f)
Results-bind P Q (done a) f h k = k a h
Results-bind P Q reject f h k = tt
Results-bind P Q crash f h k = tt
Results-bind P Q stuck f h k = tt

pub Results-map {ℓ κ μ} :
    {A : Type ℓ} (P : A → Type κ) (Q : A → Type μ) (m : Outcome A)
    → ((a : A) → P a → Q a)
    → Results P m
    → Results Q m
Results-map P Q (done a) k h = k a h
Results-map P Q reject k h = tt
Results-map P Q crash k h = tt
Results-map P Q stuck k h = tt

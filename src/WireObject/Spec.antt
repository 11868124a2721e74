-- ===== src/WireObject/Spec.antt =====
-- The specifications of include/hyprwire/core/implementation/Types.hpp and Spec.hpp, which the
-- generated code fills in, the fields of IWireObject (src/core/wireObject/IWireObject.hpp), and the
-- ways in which IWireObject::call and ::called refuse a call.
use hyprwire_debian.Base.{
  ℕ, Bool, true, false, Option, none, some, List, [], ◌∷◌, suc, zero, ◌<◌, ◌≡◌, refl, length,
}

-- SMethod
pub record Method : Type 0 where
  pub idx : ℕ
  pub params : List ℕ
  pub returns_type : List ℕ
  pub since : ℕ

-- IProtocolObjectSpec
pub record ObjectSpec : Type 0 where
  pub object_name : List ℕ
  pub c2s : List Method
  pub s2c : List Method

-- IProtocolSpec
pub record ProtocolSpec : Type 0 where
  pub spec_name : List ℕ
  pub spec_ver : ℕ
  pub objects : List ObjectSpec

-- IWireObject. Of a listener it matters only whether there is one.
pub record WireObject : Type 0 where
  pub listeners : List Bool
  pub id : ℕ
  pub version : ℕ
  pub seq : ℕ
  pub protocol_name : List ℕ
  pub spec : Option ObjectSpec

-- The fields as they are initialised.
abbrev pub fresh : WireObject
fresh = record { listeners = []; id = 0; version = 0; seq = 1; protocol_name = []; spec = none }

-- CServerObject::methodsIn and methodsOut, and those of CClientObject
unfoldable pub methods_in : Bool → ObjectSpec → List Method
methods_in true spec = spec.c2s
methods_in false spec = spec.s2c

unfoldable pub methods_out : Bool → ObjectSpec → List Method
methods_out true spec = spec.s2c
methods_out false spec = spec.c2s

-- The reasons for which `error(m_id, MSG)` is called, with what the text is formatted from.
pub data Refusal : Type 0 where
  invalid_method : ℕ → ℕ → Refusal
  too_new : ℕ → ℕ → ℕ → Refusal
  server_returns : ℕ → ℕ → Refusal
  wrong_param : ℕ → ℕ → ℕ → ℕ → Refusal
  bad_array : Refusal
  object_unimplemented : Refusal

abbrev pub get_elem? {ℓ} : {A : Type ℓ} → List A → ℕ → Option A
get_elem? [] i = none
get_elem? (x ∷ xs) zero = some x
get_elem? (x ∷ xs) (suc i) = get_elem? xs i

-- Whether a string is empty.
abbrev pub is_empty {ℓ} : {A : Type ℓ} → List A → Bool
is_empty [] = true
is_empty (x ∷ xs) = false

pub is_empty-pos : (xs : List ℕ) → 0 < length xs → is_empty xs ≡ false
is_empty-pos [] h = elim h [ ]
is_empty-pos (x ∷ xs) h = refl

-- `m_listeners.size() <= id || m_listeners.at(id) == nullptr`, negated
unfoldable pub has_listener : List Bool → ℕ → Bool
has_listener [] id = false
has_listener (l ∷ ls) zero = l
has_listener (l ∷ ls) (suc id) = has_listener ls id

-- IWireObject::listen, of a pointer that is or is not null: the vector grows up to `id`.
unfoldable pub listen : List Bool → ℕ → Bool → List Bool
listen [] zero fn = fn ∷ []
listen [] (suc id) fn = false ∷ listen [] id fn
listen (l ∷ ls) zero fn = fn ∷ ls
listen (l ∷ ls) (suc id) fn = l ∷ listen ls id fn

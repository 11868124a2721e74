-- ===== src/Scanner/Generated/Types.antt =====
-- The types of the function that libffi calls (scanner/main.cpp) against those that
-- IWireObject::called gives to libffi.
use mathlib.Core.List.{map-append}
use hyprwire_debian.Base.{
  ℕ, ◌+◌, Bool, true, false, ◌≡◌, refl, ap, inl, inr, List, [], ◌∷◌, ◌++◌, ◌==◌, if◌then◌else◌, map,
  drop, drop, arith, Bool-cases,
}
use hyprwire_debian.Outcome.{Outcome, done, reject, crash, stuck, ◌>>=◌}
use hyprwire_debian.Outcome.Results.{Results, Results->>=}
use hyprwire_debian.Wire.Magic
use hyprwire_debian.Message.Hello.{bytes_eq}
use hyprwire_debian.WireObject.Spec.{Refusal, is_empty}
use hyprwire_debian.WireObject.Demarshal.{
  FfiType, uint32, pointer, Span, Checked, fine, refuse, param, span_at, also, check_params,
  check_array, check_scalar, ffi_type_from, wire_params,
}
use hyprwire_debian.Scanner.Text.{Text, codes}
use hyprwire_debian.Scanner.Types.{RequestArgument, str_to_magic}
use hyprwire_debian.Scanner.Protocol.{Xml, MethodSpec, scan_arg, scan_args, scan_method}
use hyprwire_debian.Scanner.Generated.{
  Basic, varchar, uint, enum, int, f32, fd, ArgType, one, array_of, type_text, basic_code, HasType,
  NamesTypes, Typed, arg_codes, params_of, method_of, CType, u32, enumeration, abi, basic_c,
  arg_params, args_params, listener_params,
}

-- The two fields that an argument's type is read into.
abbrev Reads : Text → ArgType → Type 0
Reads sv (one b) =
    (str_to_magic sv ≡ basic_code b)
    × ((if str_to_magic sv == Magic.array then str_to_magic (drop 6 sv) else Magic.end) ≡ Magic.end)
Reads sv (array_of b) =
    (str_to_magic sv ≡ Magic.array)
    × ((if str_to_magic sv == Magic.array then str_to_magic (drop 6 sv) else Magic.end)
        ≡ basic_code b)

type_text-Reads : (t : ArgType) → Reads (type_text t) t
unfolding str_to_magic bytes_eq
type_text-Reads (one varchar) = (refl, refl)
type_text-Reads (one uint) = (refl, refl)
type_text-Reads (one enum) = (refl, refl)
type_text-Reads (one int) = (refl, refl)
type_text-Reads (one f32) = (refl, refl)
type_text-Reads (one fd) = (refl, refl)
type_text-Reads (array_of varchar) = (refl, refl)
type_text-Reads (array_of uint) = (refl, refl)
type_text-Reads (array_of enum) = (refl, refl)
type_text-Reads (array_of int) = (refl, refl)
type_text-Reads (array_of f32) = (refl, refl)
type_text-Reads (array_of fd) = (refl, refl)

HasType-Reads :
    (xml : Xml) (from_client : Bool) (p : xml.Node) (t : ArgType)
    → Reads (xml.as_string p (codes "type")) t
    → HasType (scan_arg xml from_client p) t
unfolding scan_arg
HasType-Reads xml from_client p (one b) h = h
HasType-Reads xml from_client p (array_of b) h = h

pub scan_args-Typed :
    (xml : Xml) (from_client : Bool) (ps : List xml.Node)
    → NamesTypes xml ps
    → Typed (scan_args xml from_client ps)
unfolding scan_args
scan_args-Typed xml from_client [] h = tt
scan_args-Typed xml from_client (p ∷ ps) h =
    elim (Bool-cases (bytes_eq (xml.name p) (codes "arg"))) [
      | inl e ↦
          let (t, r) = h.0 e in
          rw e (
            (t, HasType-Reads xml from_client p t (rw r (type_text-Reads t))),
            scan_args-Typed xml from_client ps h.1,
          )
      | inr e ↦ rw e (scan_args-Typed xml from_client ps h.1)
    ]

pub scan_method-Typed :
    (xml : Xml) (from_client : Bool) (node : xml.Node) (idx : ℕ)
    → NamesTypes xml (xml.children node)
    → Typed (scan_method xml from_client node idx).args
unfolding scan_method
scan_method-Typed xml from_client node idx h = scan_args-Typed xml from_client (xml.children node) h

-- What a check comes to, if it does not refuse.
abbrev pub Are : List FfiType → Checked (List FfiType) → Type 0
Are ts (fine us) = us ≡ ts
Are ts (refuse r) = Unit

also-Are :
    (front ts : List FfiType) (o : Outcome (Checked (List FfiType)))
    → Results (Are ts) o
    → Results (Are (front ++ ts)) (also front o)
also-Are front ts (done (fine us)) h = ap (λ l. front ++ l) h
also-Are front ts (done (refuse r)) h = tt
also-Are front ts reject h = tt
also-Are front ts crash h = tt
also-Are front ts stuck h = tt

abbrev Types : Type 0
Types = Outcome (Checked (List FfiType))

-- One parameter, whose type stands in front of those behind it.
step-Are :
    (x : FfiType) (ts : List FfiType) (next : Outcome (Checked ℕ)) (rest : ℕ → Types)
    → ((p : ℕ) → Results (Are ts) (rest p))
    → Results
        (Are (x ∷ ts))
        (next >>= λ n. elim n [ refuse r ↦ done (refuse r) | fine p ↦ also (x ∷ []) (rest p) ])
step-Are x ts (done (fine p)) rest h = also-Are (x ∷ []) ts (rest p) (h p)
step-Are x ts (done (refuse r)) rest h = tt
step-Are x ts reject rest h = tt
step-Are x ts crash rest h = tt
step-Are x ts stuck rest h = tt

-- A parameter that is not the one on the wire is refused; and the branches of one that is neither
-- an array nor the end.
compared-Are :
    (ts : List FfiType) (same : Bool) (r : Refusal) (o : Types)
    → Results (Are ts) o
    → Results (Are ts) (elim same [ false ↦ done (refuse r) | true ↦ o ])
compared-Are ts false r o h = tt
compared-Are ts true r o h = h

scalar-Are :
    (ts : List FfiType) (is_array is_end : Bool) (x y z : Types)
    → is_array ≡ false
    → is_end ≡ false
    → Results (Are ts) z
    → Results (Are ts) (elim is_array [ true ↦ x | false ↦ elim is_end [ true ↦ y | false ↦ z ] ])
scalar-Are ts true is_end x y z h k r = ground arith
scalar-Are ts false true x y z h k r = ground arith
scalar-Are ts false false x y z h k r = r

-- The ABI's types of C++ parameters.
abbrev pub abis : List (CType × Text) → List FfiType
abis ps = map (λ p. abi p.0) ps

arg_codes-basic :
    (a : RequestArgument) (b : Basic) → a.magic ≡ basic_code b → arg_codes a ≡ basic_code b ∷ []
unfolding arg_codes
arg_codes-basic a varchar h = rw h refl
arg_codes-basic a uint h = rw h refl
arg_codes-basic a enum h = rw h refl
arg_codes-basic a int h = rw h refl
arg_codes-basic a f32 h = rw h refl
arg_codes-basic a fd h = rw h refl

arg_codes-array :
    (a : RequestArgument) → a.magic ≡ Magic.array → arg_codes a ≡ Magic.array ∷ a.arr_type ∷ []
unfolding arg_codes
arg_codes-array a h = rw h refl

-- An enum is passed as a uint32_t.
abi-enumeration :
    (is_enum : Bool) (name : Text) → abi (if is_enum then enumeration name else u32) ≡ uint32
unfolding abi
abi-enumeration true name = refl
abi-enumeration false name = refl

abis-basic :
    (proto : Text) (a : RequestArgument) (b : Basic)
    → a.magic ≡ basic_code b
    → abis (arg_params proto a) ≡ abi (basic_c (basic_code b)) ∷ []
unfolding arg_params abi
abis-basic proto a varchar h = rw h refl
abis-basic proto a uint h = rw h (ap (λ x. x ∷ []) (abi-enumeration a.is_enum _))
abis-basic proto a enum h = rw h (ap (λ x. x ∷ []) (abi-enumeration a.is_enum _))
abis-basic proto a int h = rw h refl
abis-basic proto a f32 h = rw h refl
abis-basic proto a fd h = rw h refl

abis-array :
    (proto : Text) (a : RequestArgument)
    → a.magic ≡ Magic.array
    → abis (arg_params proto a) ≡ pointer ∷ uint32 ∷ []
unfolding arg_params abi
abis-array proto a h = rw h refl

module _ (id : ℕ) (s : Span) where
  -- The types of the parameters from here on, wherever they are met.
  abbrev pub Checks : List ℕ → List FfiType → Type 0
  Checks params ts = (i p : ℕ) → Results (Are ts) (check_params id s param params i p)

  Checks-scalar :
      (t : ℕ) (rest : List ℕ) (ts : List FfiType)
      → (t == Magic.array) ≡ false
      → (t == Magic.end) ≡ false
      → Checks rest ts
      → Checks (t ∷ rest) (ffi_type_from t ∷ ts)
  unfolding check_params
  Checks-scalar t rest ts h k c i p =
      Results->>= (Are (ffi_type_from t ∷ ts)) (span_at s p) _ (λ wire.
        compared-Are (ffi_type_from t ∷ ts) (t == wire) _ _ (
          scalar-Are (ffi_type_from t ∷ ts) (t == Magic.array) (t == Magic.end) _ _ _ h k (
            step-Are (ffi_type_from t) ts (check_scalar s t p)
              (λ p'. check_params id s param rest (i + 1) p') (c (i + 1)))))

  Checks-array :
      (t : ℕ) (rest : List ℕ) (ts : List FfiType)
      → Checks rest ts
      → Checks (Magic.array ∷ t ∷ rest) (pointer ∷ uint32 ∷ ts)
  unfolding check_params ffi_type_from
  Checks-array t rest ts c i p = Results->>= (Are (pointer ∷ uint32 ∷ ts)) (span_at s p) _ (λ wire.
      compared-Are (pointer ∷ uint32 ∷ ts) (Magic.array == wire) _ _ (
        also-Are (pointer ∷ []) (uint32 ∷ ts) _ (
          step-Are uint32 ts (check_array id s t (i + 1) p)
            (λ p'. check_params id s param rest (i + 1 + 1) p') (c (i + 1 + 1)))))

  Checks-basic :
      (b : Basic) (rest : List ℕ) (ts : List FfiType)
      → Checks rest ts
      → Checks (basic_code b ∷ rest) (abi (basic_c (basic_code b)) ∷ ts)
  unfolding ffi_type_from abi basic_c
  Checks-basic varchar rest ts = Checks-scalar Magic.varchar rest ts refl refl
  Checks-basic uint rest ts = Checks-scalar Magic.uint rest ts refl refl
  Checks-basic enum rest ts = Checks-scalar Magic.uint rest ts refl refl
  Checks-basic int rest ts = Checks-scalar Magic.int rest ts refl refl
  Checks-basic f32 rest ts = Checks-scalar Magic.f32 rest ts refl refl
  Checks-basic fd rest ts = Checks-scalar Magic.fd rest ts refl refl

  Checks-arg :
      (proto : Text) (a : RequestArgument) (t : ArgType) (rest : List ℕ) (ts : List FfiType)
      → HasType a t
      → Checks rest ts
      → Checks (arg_codes a ++ rest) (abis (arg_params proto a) ++ ts)
  Checks-arg proto a (one b) rest ts h c =
      rw (arg_codes-basic a b h.0, abis-basic proto a b h.0) (Checks-basic b rest ts c)
  Checks-arg proto a (array_of b) rest ts h c =
      rw (arg_codes-array a h.0, abis-array proto a h.0) (Checks-array a.arr_type rest ts c)

  Checks-args :
      (proto : Text) (args : List RequestArgument)
      → Typed args
      → Checks (params_of args) (abis (args_params proto args))
  unfolding params_of args_params check_params
  Checks-args proto [] h = λ i p. refl
  Checks-args proto (a ∷ as_) h =
      rw (map-append (λ q. abi q.0) (arg_params proto a) (args_params proto as_)) (
        Checks-arg proto a h.0.0 (params_of as_) (abis (args_params proto as_)) h.0.1
          (Checks-args proto as_ h.1))

  pub Checks-listener :
      (proto : Text) (from_client : Bool) (m : MethodSpec)
      → Typed m.args
      → Checks (wire_params (method_of from_client m)) (abis (listener_params proto from_client m))
  unfolding wire_params method_of listener_params abi ffi_type_from
  Checks-listener proto from_client m h =
      let returns = if from_client then m.returns else [] in
      elim (Bool-cases (is_empty returns)) [
        | inl e ↦ rw e (Checks-args proto m.args h)
        | inr e ↦ rw e (
            Checks-scalar Magic.seq (params_of m.args) (abis (args_params proto m.args)) refl refl
              (Checks-args proto m.args h))
      ]

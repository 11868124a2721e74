-- ===== src/Scanner/Generated/Texts.antt =====
-- The texts of a method's parameters that scanner/main.cpp writes, in the header and in the function
-- that libffi calls.
use mathlib.Core.List.{map-append, append-nil, append_assoc}
use hyprwire_debian.Base.{
  ℕ, ◌+◌, ◌-◌, Bool, true, false, not, ◌≡◌, refl, sym, ap, ◌∙◌, inl, inr, List, [], ◌∷◌, ◌++◌, ◌==◌,
  if◌then◌else◌, map, take, length, length-append, take-length_append, le→leb, arith, Bool-cases,
}
use hyprwire_debian.Wire.Magic
use hyprwire_debian.WireObject.Spec.{is_empty}
use hyprwire_debian.Scanner.Text.{Text, codes, drop_separator, each, format}
use hyprwire_debian.Scanner.Types.{
  RequestArgument, Style, arg_to_c, magic_to_c, magic_to_string, scalar_to_string, one_to_c,
  all_to_c, sequence_to_c, args_to_c,
}
use hyprwire_debian.Scanner.Protocol.{MethodSpec}
use hyprwire_debian.Scanner.Header.{arg_magic, params_text}
use hyprwire_debian.Scanner.Generated.{
  Basic, varchar, uint, enum, int, f32, fd, ArgType, one, array_of, basic_code, HasType, Typed,
  arg_codes, params_of, method_of, CType, u32, enumeration, elements, spell, declaration, basic_c,
  arg_params, args_params, listener_params, comma_join, code_name,
}

-- Each text with the separator behind it.
abbrev pub separated : Text → Text
separated t = t ++ codes ", "

pub drop_separator-separated : (t : Text) → drop_separator (separated t) ≡ t
unfolding drop_separator
drop_separator-separated t =
    let n : length (separated t) ≡ length t + 2 = length-append t (codes ", ") in
    rw (le→leb 2 (length (separated t)) (omega (arith, n))) (
      ap (λ k. take k (separated t))
        (let e : length (separated t) - 2 ≡ length t = omega (arith, n) in e)
      ∙ take-length_append t (codes ", "))

-- The texts of a list, each with the separator behind it, are the join of the list and a separator.
pub each-separated :
    (t : Text) (ts : List Text) → each separated (t ∷ ts) ≡ separated (comma_join (t ∷ ts))
unfolding comma_join
each-separated t [] = append-nil (separated t)
each-separated t (u ∷ us) =
    ap (λ l. separated t ++ l) (each-separated u us)
    ∙ append_assoc t (codes ", ") (separated (comma_join (u ∷ us)))
    ∙ sym (append_assoc t (codes ", " ++ comma_join (u ∷ us)) (codes ", "))

separated-is_empty : (t : Text) → is_empty (separated t) ≡ false
separated-is_empty [] = refl
separated-is_empty (c ∷ cs) = refl

-- How both functions end: the last separator is taken off, if there is one.
without_last :
    (ts : List Text)
    → (if is_empty (each separated ts)
        then each separated ts
        else drop_separator (each separated ts))
      ≡ comma_join ts
unfolding comma_join
without_last [] = refl
without_last (t ∷ ts) =
    rw (each-separated t ts, separated-is_empty (comma_join (t ∷ ts)))
      (drop_separator-separated (comma_join (t ∷ ts)))

each-append :
    (ts us : List Text) → each separated (ts ++ us) ≡ each separated ts ++ each separated us
each-append [] us = refl
each-append (t ∷ ts) us =
    ap (λ l. separated t ++ l) (each-append ts us)
    ∙ sym (append_assoc (separated t) (each separated ts) (each separated us))

abbrev names : List ℕ → List Text
names cs = map code_name cs

arg_magic-names :
    (a : RequestArgument) (t : ArgType)
    → HasType a t
    → arg_magic a ≡ each separated (names (arg_codes a))
unfolding arg_magic arg_codes magic_to_string scalar_to_string code_name Magic.magic_to_string
arg_magic-names a (one varchar) h = rw h.0 refl
arg_magic-names a (one uint) h = rw h.0 refl
arg_magic-names a (one enum) h = rw h.0 refl
arg_magic-names a (one int) h = rw h.0 refl
arg_magic-names a (one f32) h = rw h.0 refl
arg_magic-names a (one fd) h = rw h.0 refl
arg_magic-names a (array_of varchar) h = rw (h.0, h.1) refl
arg_magic-names a (array_of uint) h = rw (h.0, h.1) refl
arg_magic-names a (array_of enum) h = rw (h.0, h.1) refl
arg_magic-names a (array_of int) h = rw (h.0, h.1) refl
arg_magic-names a (array_of f32) h = rw (h.0, h.1) refl
arg_magic-names a (array_of fd) h = rw (h.0, h.1) refl

each_arg-names :
    (args : List RequestArgument)
    → Typed args
    → each arg_magic args ≡ each separated (names (params_of args))
unfolding params_of
each_arg-names [] h = refl
each_arg-names (a ∷ as_) h =
    rw
      (
        map-append code_name (arg_codes a) (params_of as_),
        each-append (names (arg_codes a)) (names (params_of as_)),
        arg_magic-names a h.0.0 h.0.1,
        each_arg-names as_ h.1,
      )
      refl

pub params_text-names :
    (args : List RequestArgument)
    → Typed args
    → params_text args ≡ comma_join (names (params_of args))
unfolding params_text
params_text-names args h = rw (each_arg-names args h) (without_last (names (params_of args)))

-- With their names and in C.
abbrev pub pure : Bool → Style
pure add_sequence = record {
  no_names = false;
  no_types = false;
  add_sequence = add_sequence;
  pure_c = true;
  un_c = false;
}

abbrev declarations : List (CType × Text) → List Text
declarations ps = map declaration ps

format-declaration :
    (t name : Text)
    → format (codes "{} {}, ") (t ∷ name ∷ []) ≡ separated (t ++ (codes " " ++ name))
unfolding format
format-declaration t name = sym (append_assoc t (codes " " ++ name) (codes ", "))

format-pointer :
    (t name size : Text)
    → format (codes "{}* {}, uint32_t {}, ") (t ∷ name ∷ size ∷ [])
      ≡ each separated
          (((t ++ codes "*") ++ (codes " " ++ name)) ∷ (codes "uint32_t " ++ size) ∷ [])
unfolding format
format-pointer t name size = simp (append_assoc, append-nil) refl

-- The type of an argument that is no array.
abbrev pub scalar_c : Text → RequestArgument → CType
scalar_c proto a =
    if a.magic == Magic.uint
    then (if a.is_enum then enumeration (arg_to_c proto a) else u32)
    else basic_c a.magic

pub arg_params-scalar :
    (proto : Text) (a : RequestArgument) (b : Basic)
    → a.magic ≡ basic_code b
    → arg_params proto a ≡ (scalar_c proto a, a.name) ∷ []
unfolding arg_params
arg_params-scalar proto a varchar h = rw h refl
arg_params-scalar proto a uint h = rw h refl
arg_params-scalar proto a enum h = rw h refl
arg_params-scalar proto a int h = rw h refl
arg_params-scalar proto a f32 h = rw h refl
arg_params-scalar proto a fd h = rw h refl

spell-uint :
    (proto : Text) (a : RequestArgument)
    → a.magic ≡ Magic.uint
    → spell (scalar_c proto a) ≡ arg_to_c proto a
unfolding spell arg_to_c magic_to_c
spell-uint proto a h = elim (Bool-cases a.is_enum) [
  | inl e ↦ rw (h, e) refl
  | inr e ↦ rw (h, e) refl
]

spell-scalar :
    (proto : Text) (a : RequestArgument) (b : Basic)
    → a.magic ≡ basic_code b
    → spell (scalar_c proto a) ≡ arg_to_c proto a
unfolding basic_c spell arg_to_c magic_to_c
spell-scalar proto a varchar h = rw h refl
spell-scalar proto a uint h = spell-uint proto a h
spell-scalar proto a enum h = spell-uint proto a h
spell-scalar proto a int h = rw h refl
spell-scalar proto a f32 h = rw h refl
spell-scalar proto a fd h = rw h refl

spell-element : (b : Basic) → spell (basic_c (basic_code b)) ≡ magic_to_c (basic_code b)
unfolding basic_c spell magic_to_c
spell-element varchar = refl
spell-element uint = refl
spell-element enum = refl
spell-element int = refl
spell-element f32 = refl
spell-element fd = refl

element-ne : (b : Basic) → (basic_code b == Magic.end) ≡ false
element-ne varchar = refl
element-ne uint = refl
element-ne enum = refl
element-ne int = refl
element-ne f32 = refl
element-ne fd = refl

one_to_c-scalar :
    (proto : Text) (seq : Bool) (a : RequestArgument)
    → a.arr_type ≡ Magic.end
    → one_to_c proto (pure seq) a ≡ separated (arg_to_c proto a ++ (codes " " ++ a.name))
unfolding one_to_c
one_to_c-scalar proto seq a h = rw h (format-declaration _ a.name)

one_to_c-array :
    (proto : Text) (seq : Bool) (a : RequestArgument)
    → (a.arr_type == Magic.end) ≡ false
    → one_to_c proto (pure seq) a
      ≡ each separated (
          ((magic_to_c a.arr_type ++ codes "*") ++ (codes " " ++ a.name))
          ∷ (codes "uint32_t " ++ (a.name ++ codes "_len"))
          ∷ [])
unfolding one_to_c
one_to_c-array proto seq a h =
    rw h (format-pointer (magic_to_c a.arr_type) a.name (a.name ++ codes "_len"))

pub arg_params-array :
    (proto : Text) (a : RequestArgument) (b : Basic)
    → HasType a (array_of b)
    → arg_params proto a
      ≡ (elements (basic_c (basic_code b)), a.name) ∷ (u32, a.name ++ codes "_len") ∷ []
unfolding arg_params
arg_params-array proto a b h = rw (h.0, h.1) refl

one_to_c-declarations :
    (proto : Text) (seq : Bool) (a : RequestArgument) (t : ArgType)
    → HasType a t
    → one_to_c proto (pure seq) a ≡ each separated (declarations (arg_params proto a))
unfolding declaration
one_to_c-declarations proto seq a (one b) h =
    rw (arg_params-scalar proto a b h.0, spell-scalar proto a b h.0)
      (one_to_c-scalar proto seq a h.1 ∙ sym (append-nil _))
one_to_c-declarations proto seq a (array_of b) h =
    rw (arg_params-array proto a b h, spell-element b)
      (one_to_c-array proto seq a (rw h.1 (element-ne b)) ∙ rw h.1 refl)

all_to_c-declarations :
    (proto : Text) (seq : Bool) (args : List RequestArgument)
    → Typed args
    → all_to_c proto (pure seq) args ≡ each separated (declarations (args_params proto args))
unfolding all_to_c args_params
all_to_c-declarations proto seq [] h = refl
all_to_c-declarations proto seq (a ∷ as_) h =
    rw
      (
        map-append declaration (arg_params proto a) (args_params proto as_),
        each-append (declarations (arg_params proto a)) (declarations (args_params proto as_)),
        one_to_c-declarations proto seq a h.0.0 h.0.1,
        all_to_c-declarations proto seq as_ h.1,
      )
      refl

pub args_to_c-declarations :
    (proto : Text) (from_client : Bool) (m : MethodSpec)
    → Typed m.args
    → args_to_c proto (pure (not (is_empty (method_of from_client m).returns_type))) m.args
      ≡ comma_join (declarations (listener_params proto from_client m))
unfolding args_to_c sequence_to_c listener_params declaration
args_to_c-declarations proto from_client m h =
    elim (Bool-cases (is_empty (method_of from_client m).returns_type)) [
      | inl e ↦
          rw (e, all_to_c-declarations proto false m.args h)
            (without_last (declarations (args_params proto m.args)))
      | inr e ↦
          rw (e, all_to_c-declarations proto true m.args h)
            (without_last
              (declaration (u32, codes "seq") ∷ declarations (args_params proto m.args)))
    ]

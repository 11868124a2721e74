-- ===== src/WireObject/RoundTrip/Params.antt =====
-- The first loop of IWireObject::called on arguments that fit the parameters.
use hyprwire_debian.Base.{
  ℕ, ◌+◌, ◌-◌, ◌*◌, ◌%◌, ◌^◌, ◌<◌, ◌≤◌, ◌≡◌, ◌≢◌, refl, arith, List, [], ◌∷◌, ◌++◌, length,
  length-append, drop, drop-append, drop_eq, drop-add, All, add64_lem, sub64_lem, true,
}
use hyprwire_debian.Outcome.{done}
use hyprwire_debian.VarInt.{encode_var_int}
use hyprwire_debian.VarInt.RoundTrip.{parse_var_int_span-encode}
use hyprwire_debian.Wire.Magic.{is_word}
use hyprwire_debian.Message.Handshake.{words_bytes, text_bytes, texts_bytes}
use hyprwire_debian.Message.RoundTrip.Texts.{length-words_bytes}
use hyprwire_debian.Message.RoundTrip.Text.{IsShort, prefix, length-text_bytes}
use hyprwire_debian.Message.Generic.RoundTrip.{text_span}
use hyprwire_debian.Message.Generic.Args.{
  Arg, word, text, fd, words, texts, fds, IsArg, arg_bytes, args_bytes, arg_code,
}
use hyprwire_debian.WireObject.RoundTrip.Check.{arg_params, args_params}
use hyprwire_debian.WireObject.RoundTrip.Decode.{span_at_lem}
use hyprwire_debian.WireObject.Demarshal.{
  Span, span_at, fine, FfiType, uint32, pointer, sint32, ffi_type_from, param, check_texts,
  check_elements, check_array, check_scalar, check_params,
}
use mathlib.Core.List.{append_assoc}

-- The types for libffi: of an array, those of its pointer and of its length.
unfoldable pub arg_types : Arg → List FfiType
unfolding ffi_type_from
arg_types (word t v) = ffi_type_from t ∷ []
arg_types (text x) = pointer ∷ []
arg_types (fd n) = sint32 ∷ []
arg_types _ = pointer ∷ uint32 ∷ []

unfoldable pub args_types : List Arg → List FfiType
unfolding arg_types
args_types [] = []
args_types (a ∷ args) = arg_types a ++ args_types args

word_code : (t : ℕ) → is_word t ≡ true → (t ≢ 0) × (t ≢ 0x21) × (t ≢ 0x40)
unfolding is_word
word_code t h = (λ e. ground arith, λ e. ground arith, λ e. ground arith)

-- A parameter takes a byte on the wire at least.
params-le-bytes : (a : Arg) → length (arg_params a) ≤ length (arg_bytes a)
unfolding arg_params arg_bytes
params-le-bytes (word t v) = omega arith
params-le-bytes (text x) = omega arith
params-le-bytes (fd n) = omega arith
params-le-bytes (words t vs) = omega arith
params-le-bytes (texts ts) = omega arith
params-le-bytes (fds ns) = omega arith

before : (p n m : ℕ) → p + n < m → p < m
before p n m h = omega arith

bump : {i p : ℕ} → i ≤ p → i + 1 ≤ p + 1
bump h = omega arith

module _ (s : Span) (fits : s.size < 2 ^ 63) where
  check_texts-append :
      (ts : List (List ℕ)) (p len : ℕ) (tail : List ℕ)
      → All IsShort ts
      → p + len + length (texts_bytes ts) < s.size
      → drop (p + len) s.mem ≡ texts_bytes ts ++ tail
      → check_texts s p len (length ts) ≡ done (fine (len + length (texts_bytes ts)))
  unfolding check_texts texts_bytes
  check_texts-append [] p len tail h room e = ground arith
  check_texts-append (t ∷ ts) p len tail h room e =
      let size = length-append (text_bytes t) (texts_bytes ts) in
      let after : List ℕ = texts_bytes ts ++ tail in
      let e' : drop (p + len) s.mem ≡ text_bytes t ++ after =
        rw e (append_assoc (text_bytes t) (texts_bytes ts) tail) in
      let behind : drop (p + (len + (length t + prefix t))) s.mem ≡ after =
        drop_eq s.mem (drop-append (p + len) s.mem (text_bytes t) after e')
          (omega (arith, length-text_bytes t)) in
      ground (
        arith,
        add64_lem p len (omega arith),
        sub64_lem s.size p (omega arith) (omega arith),
        sub64_lem (s.size - p) len (omega arith) (omega arith),
        text_span t s.mem (p + len) (s.size - p - len) after h.0
            (omega (arith, size, length-text_bytes t)) e',
        add64_lem (length t) (prefix t) (omega (arith, size, length-text_bytes t)),
        add64_lem len (length t + prefix t) (omega (arith, size, length-text_bytes t)),
        check_texts-append ts p (len + (length t + prefix t)) tail h.1
            (omega (arith, size, length-text_bytes t)) behind,
        size,
        length-text_bytes t,
      )

  -- One argument that is no array.
  check_scalar-append :
      (a : Arg) (p : ℕ) (tail : List ℕ)
      → IsArg a
      → arg_code a ≢ 0x21
      → p + length (arg_bytes a) < s.size
      → drop p s.mem ≡ arg_bytes a ++ tail
      → check_scalar s (arg_code a) p ≡ done (fine (p + length (arg_bytes a)))
  unfolding check_scalar arg_bytes is_word
  check_scalar-append (word t v) p tail h ne room e = ground (arith, word_code t h.0, add64_lem p 5)
  check_scalar-append (text x) p tail h ne room e =
      let len = length-text_bytes x in
      rw
        (
          sub64_lem s.size p (omega arith) (omega arith),
          text_span x s.mem (p + 1) (s.size - p) tail h (omega (arith, len)) (rw (drop-add, e)),
          add64_lem (length x) (prefix x) (omega (arith, len)),
          add64_lem (length x + prefix x) 1 (omega (arith, len)),
          add64_lem p (length x + prefix x + 1) (omega (arith, len)),
        )
        (ground (arith, len))
  check_scalar-append (fd n) p tail h ne room e = ground (arith, add64_lem p 1)
  check_scalar-append (words t vs) p tail h ne room e = absurd (ne refl)
  check_scalar-append (texts ts) p tail h ne room e = absurd (ne refl)
  check_scalar-append (fds ns) p tail h ne room e = absurd (ne refl)

  -- The head of an array; `i` is the parameter's index, which the span's size is cut by.
  check_head :
      (id t n i p : ℕ) (after : List ℕ)
      → n < 2 ^ 28
      → i ≤ p + 1
      → p + 2 + length (encode_var_int n) < s.size
      → drop p s.mem ≡ 0x21 ∷ t ∷ encode_var_int n ++ after
      → check_array id s t i p ≡ check_elements s t p n (2 + length (encode_var_int n))
  unfolding check_array
  check_head id t n i p after h hi room e = ground (
    arith,
    span_at_lem s fits (p + 1) t (encode_var_int n ++ after) (omega arith) (rw (drop-add, e)),
    sub64_lem s.size i (omega arith) (omega arith),
    parse_var_int_span-encode n s.mem (p + 2) (s.size - i) after h (omega arith) (rw (drop-add, e)),
  )

  -- The three kinds of array.
  module _ (id i p : ℕ) (tail : List ℕ) (hi : i ≤ p + 1) where
    check_words :
        (t : ℕ) (vs : List ℕ)
        → IsArg (words t vs)
        → p + length (arg_bytes (words t vs)) < s.size
        → drop p s.mem ≡ arg_bytes (words t vs) ++ tail
        → check_array id s t i p ≡ done (fine (p + length (arg_bytes (words t vs))))
    unfolding arg_bytes check_elements
    check_words t vs h room e =
        let k = length (encode_var_int (length vs)) in
        let size = length-append (encode_var_int (length vs)) (words_bytes vs) in
        rw
          (
            check_head id t (length vs) i p (words_bytes vs ++ tail) h.1 hi (omega (arith, size))
                (rw e (simp append_assoc)),
            h.0,
          )
          (ground (
            arith,
            size,
            length-words_bytes vs,
            add64_lem (2 + k) (4 * length vs % 2 ^ 64),
            add64_lem p (2 + k + 4 * length vs % 2 ^ 64),
          ))

    check_text_array :
        (ts : List (List ℕ))
        → IsArg (texts ts)
        → p + length (arg_bytes (texts ts)) < s.size
        → drop p s.mem ≡ arg_bytes (texts ts) ++ tail
        → check_array id s 0x20 i p ≡ done (fine (p + length (arg_bytes (texts ts))))
    unfolding arg_bytes check_elements is_word
    check_text_array ts h room e =
        let k = length (encode_var_int (length ts)) in
        let size = length-append (encode_var_int (length ts)) (texts_bytes ts) in
        let after : List ℕ = texts_bytes ts ++ tail in
        let e' : drop p s.mem ≡ 0x21 ∷ 0x20 ∷ encode_var_int (length ts) ++ after =
          rw e (simp append_assoc) in
        rw
          (
            check_head id 0x20 (length ts) i p after h.0 hi (omega (arith, size)) e',
            check_texts-append ts p (2 + k) tail h.1 (omega (arith, size)) (
                drop_eq s.mem
                  (drop-append p s.mem (0x21 ∷ 0x20 ∷ encode_var_int (length ts)) after e')
                  (omega arith)),
            add64_lem p (2 + k + length (texts_bytes ts)) (omega (arith, size)),
          )
          (ground (arith, size))

    check_fds :
        (ns : List ℕ)
        → IsArg (fds ns)
        → p + length (arg_bytes (fds ns)) < s.size
        → drop p s.mem ≡ arg_bytes (fds ns) ++ tail
        → check_array id s 0x40 i p ≡ done (fine (p + length (arg_bytes (fds ns))))
    unfolding arg_bytes check_elements is_word
    check_fds ns h room e =
        let k = length (encode_var_int (length ns)) in
        rw
          (
            check_head id 0x40 (length ns) i p tail h hi (omega arith) e,
            add64_lem p (2 + k) (omega arith),
          )
          (ground arith)

  -- One round of the loop.
  module _ (id i p p' : ℕ) (ps : List ℕ) (types : List FfiType) where
    scalar_round :
        (t : ℕ)
        → t ≢ 0
        → t ≢ 0x21
        → span_at s p ≡ done t
        → check_scalar s t p ≡ done (fine p')
        → check_params id s param ps (i + 1) p' ≡ done (fine types)
        → check_params id s param (t ∷ ps) i p ≡ done (fine (ffi_type_from t ∷ types))
    unfolding check_params
    scalar_round t nz na here' step k = ground arith

    array_round :
        (t : ℕ)
        → span_at s p ≡ done 0x21
        → check_array id s t (i + 1) p ≡ done (fine p')
        → check_params id s param ps (i + 2) p' ≡ done (fine types)
        → check_params id s param (0x21 ∷ t ∷ ps) i p ≡ done (fine (pointer ∷ uint32 ∷ types))
    unfolding check_params
    array_round t here' step k =
        let same : i + 2 ≡ i + 1 + 1 = omega arith in let k' = rw same at k in ground (arith, k')

  -- An argument's parameters are checked, and the loop goes on behind it. `i` stays at or below the
  -- place on the wire.
  module _ (id i p : ℕ) (ps : List ℕ) (types : List FfiType) (tail : List ℕ) (hi : i ≤ p) where
    Follows : Arg → Type 0
    Follows a =
        IsArg a
        → p + length (arg_bytes a) < s.size
        → drop p s.mem ≡ arg_bytes a ++ tail
        → check_params id s param ps (i + length (arg_params a)) (p + length (arg_bytes a))
          ≡ done (fine types)
        → check_params id s param (arg_params a ++ ps) i p ≡ done (fine (arg_types a ++ types))

    check_scalar_arg :
        (a : Arg) (rest : List ℕ)
        → arg_code a ≢ 0
        → arg_code a ≢ 0x21
        → arg_params a ≡ arg_code a ∷ []
        → arg_types a ≡ ffi_type_from (arg_code a) ∷ []
        → arg_bytes a ≡ arg_code a ∷ rest
        → Follows a
    unfolding Follows
    check_scalar_arg a rest nz na eps ets ebs h room e k =
        rw (eps, ets)
          (scalar_round id i p (p + length (arg_bytes a)) ps types (arg_code a) nz na
            (span_at_lem s fits p (arg_code a) (rest ++ tail) (before p _ _ room) (rw ebs at e))
            (check_scalar-append a p tail h na room e) (rw eps at k))

    check_array_arg :
        (a : Arg) (t : ℕ) (rest : List ℕ)
        → arg_params a ≡ 0x21 ∷ t ∷ []
        → arg_types a ≡ pointer ∷ uint32 ∷ []
        → arg_bytes a ≡ 0x21 ∷ rest
        → (IsArg a
            → p + length (arg_bytes a) < s.size
            → drop p s.mem ≡ arg_bytes a ++ tail
            → check_array id s t (i + 1) p ≡ done (fine (p + length (arg_bytes a))))
        → Follows a
    unfolding Follows
    check_array_arg a t rest eps ets ebs step h room e k =
        rw (eps, ets)
          (array_round id i p (p + length (arg_bytes a)) ps types t
            (span_at_lem s fits p 0x21 (rest ++ tail) (before p _ _ room) (rw ebs at e))
            (step h room e) (rw eps at k))

    check_arg-append : (a : Arg) → IsArg a → Follows a
    unfolding arg_params arg_types arg_bytes
    check_arg-append (word t v) h =
        check_scalar_arg (word t v) _ (word_code t h.0).0 (word_code t h.0).1 refl refl refl
    check_arg-append (text x) h =
        check_scalar_arg (text x) _ (λ q. omega arith) (λ q. omega arith) refl refl refl
    check_arg-append (fd n) h =
        check_scalar_arg (fd n) _ (λ q. omega arith) (λ q. omega arith) refl refl refl
    check_arg-append (words t vs) h =
        check_array_arg (words t vs) t _ refl refl refl
          (check_words id (i + 1) p tail (bump hi) t vs)
    check_arg-append (texts ts) h =
        check_array_arg (texts ts) 0x20 _ refl refl refl
          (check_text_array id (i + 1) p tail (bump hi) ts)
    check_arg-append (fds ns) h =
        check_array_arg (fds ns) 0x40 _ refl refl refl (check_fds id (i + 1) p tail (bump hi) ns)

  -- All the arguments pass, and give the types of their values.
  pub check_params-args :
      (args : List Arg) (id i p : ℕ) (rest : List ℕ)
      → All IsArg args
      → i ≤ p
      → p + length (args_bytes args) < s.size
      → drop p s.mem ≡ args_bytes args ++ 0 ∷ rest
      → check_params id s param (args_params args) i p ≡ done (fine (args_types args))
  unfolding args_params args_types args_bytes Follows
  check_params-args [] id i p rest h hi room e = unfold check_params in refl
  check_params-args (a ∷ args) id i p rest h hi room e =
      let tail : List ℕ = args_bytes args ++ 0 ∷ rest in
      let size = length-append (arg_bytes a) (args_bytes args) in
      let e' : drop p s.mem ≡ arg_bytes a ++ tail =
        rw e (append_assoc (arg_bytes a) (args_bytes args) (0 ∷ rest)) in
      check_arg-append id i p (args_params args) (args_types args) tail hi a h.0 h.0
        (omega (arith, size)) e'
        (check_params-args args id (i + length (arg_params a)) (p + length (arg_bytes a)) rest h.1
          (omega (arith, params-le-bytes a)) (omega (arith, size))
          (drop-append p s.mem (arg_bytes a) tail e'))

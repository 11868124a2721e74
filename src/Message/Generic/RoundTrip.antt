-- ===== src/Message/Generic/RoundTrip.antt =====
-- The walk over arguments that were written: it goes to the end, and takes their descriptors.
use hyprwire_debian.Base.{
  ℕ, zero, suc, ◌+◌, ◌-◌, ◌*◌, ◌%◌, ◌^◌, ◌<◌, ◌≤◌, ◌≡◌, ◌≢◌, refl, ◌∙◌, arith, List, [], ◌∷◌, ◌++◌,
  length, length-append, drop, drop-append, drop_eq, drop-add, drop_cons-lt, drop_append-lt,
  u32_bytes, IsU32, All, add64_lem, sub64_lem, true,
}
use hyprwire_debian.Outcome.{done}
use hyprwire_debian.Outcome.Laws.{at_lem, expect_in, read_u32_in, append_cons-ne-nil, append-ne-nil}
use hyprwire_debian.VarInt.{parse_var_int_span, encode_var_int}
use hyprwire_debian.VarInt.RoundTrip.{parse_var_int_span-encode}
use hyprwire_debian.Wire.Magic.{is_word}
use hyprwire_debian.Message.Handshake.{words_bytes, text_bytes, texts_bytes}
use hyprwire_debian.Message.RoundTrip.Texts.{length-words_bytes}
use hyprwire_debian.Message.RoundTrip.Text.{IsShort, prefix, length-text_bytes, text_at}
use hyprwire_debian.Message.Generic.{
  Cursor, take_fd, take_fds, skip_texts, skip_elements, skip_array, skip_arg, skip_args,
  parse_generic,
}
use hyprwire_debian.Message.Generic.Args.{
  Arg, word, text, fd, words, texts, fds, IsArg, arg_bytes, arg_fds, args_bytes, args_fds,
  generic_bytes,
}
use mathlib.Core.List.{append_assoc, append-nil}

-- Descriptors are taken in order.
pub take_fds-append :
    (ns more taken : List ℕ) (i : ℕ)
    → take_fds (length ns) (record { i = i; fds = ns ++ more; taken = taken })
      ≡ done (record { i = i; fds = more; taken = taken ++ ns })
unfolding take_fds take_fd
take_fds-append [] more taken i = rw append-nil
take_fds-append (n ∷ ns) more taken i =
    take_fds-append ns more (taken ++ n ∷ []) i ∙ rw (append_assoc taken (n ∷ []) ns)

word_ne_end : (t : ℕ) → is_word t ≡ true → t ≢ 0
unfolding is_word
word_ne_end t h e = ground arith

-- The number before a text, read through a span.
pub text_span :
    (t bytes : List ℕ) (p len : ℕ) (tail : List ℕ)
    → IsShort t
    → prefix t ≤ len
    → drop p bytes ≡ text_bytes t ++ tail
    → parse_var_int_span bytes p len ≡ done (length t, prefix t)
unfolding text_bytes
text_span t bytes p len tail h hl e =
    parse_var_int_span-encode (length t) bytes p len (t ++ tail) h hl
      (rw e (append_assoc (encode_var_int (length t)) t tail))

module _ (bytes : List ℕ) (offset : ℕ) (fits : length bytes < 2 ^ 63) where
  -- One round, at an argument whose code is not END.
  skip_step :
      (fuel code : ℕ) (c d : Cursor) (tail : List ℕ)
      → code ≢ 0
      → drop (offset + c.i) bytes ≡ code ∷ tail
      → skip_arg bytes offset code c ≡ done d
      → skip_args (suc fuel) bytes offset c ≡ skip_args fuel bytes offset d
  unfolding skip_args
  skip_step fuel code c d tail ne e step =
      rw
        (
          add64_lem offset c.i (omega (arith, drop_cons-lt (offset + c.i) bytes e)),
          at_lem bytes (offset + c.i) code tail e,
        )
        (ground arith)

  -- Where a position lies inside the buffer, sums of `size_t` do not wrap.
  skip_texts-append :
      (ts : List (List ℕ)) (i len : ℕ) (tail : List ℕ)
      → All IsShort ts
      → tail ≢ []
      → drop (offset + i + len) bytes ≡ texts_bytes ts ++ tail
      → skip_texts bytes offset i len (length ts) ≡ done (len + length (texts_bytes ts))
  unfolding skip_texts texts_bytes
  skip_texts-append [] i len tail h ne e = ground arith
  skip_texts-append (t ∷ ts) i len tail h ne e =
      let whole = drop_append-lt (offset + i + len) bytes (texts_bytes (t ∷ ts)) tail ne e in
      let size = length-append (text_bytes t) (texts_bytes ts) in
      let e' : drop (offset + i + len) bytes ≡ text_bytes t ++ (texts_bytes ts ++ tail) =
        rw e (append_assoc (text_bytes t) (texts_bytes ts) tail) in
      let more = skip_texts-append ts i (len + (length t + prefix t)) tail h.1 ne (
        drop_eq bytes
          (drop-append (offset + i + len) bytes (text_bytes t) (texts_bytes ts ++ tail) e')
          (omega (arith, length-text_bytes t))) in
      rw
        (
          add64_lem offset i (omega arith),
          add64_lem (offset + i) len (omega arith),
          sub64_lem (length bytes) i (omega arith) (omega arith),
          sub64_lem (length bytes - i) len (omega arith) (omega arith),
          text_span t bytes (offset + i + len) (length bytes - i - len) (texts_bytes ts ++ tail) h.0
              (omega (arith, size, length-text_bytes t)) e',
          add64_lem (length t) (prefix t) (omega (arith, size, length-text_bytes t)),
          add64_lem len (length t + prefix t) (omega (arith, size, length-text_bytes t)),
          more,
        )
        (ground (arith, size, length-text_bytes t))

  array_head :
      (t n : ℕ) (c : Cursor) (after : List ℕ)
      → n < 2 ^ 28
      → after ≢ []
      → drop (offset + c.i) bytes ≡ 0x21 ∷ t ∷ encode_var_int n ++ after
      → skip_array bytes offset c ≡ skip_elements bytes offset t n (2 + length (encode_var_int n)) c
  unfolding skip_array
  array_head t n c after h ne e =
      let whole = drop_append-lt (offset + c.i) bytes (0x21 ∷ t ∷ encode_var_int n) after ne e in
      rw (
        add64_lem offset c.i (omega arith),
        add64_lem (offset + c.i) 1 (omega arith),
        add64_lem (offset + c.i) 2 (omega arith),
        sub64_lem (length bytes) c.i (omega arith) (omega arith),
        at_lem bytes (offset + c.i + 1) t (encode_var_int n ++ after) (rw (drop-add, e)),
        parse_var_int_span-encode n bytes (offset + c.i + 2) (length bytes - c.i) after h
            (omega arith) (rw (drop-add, e)),
      )

  -- Each kind of array, at the cursor where it stands.
  module _ (c : Cursor) (tail : List ℕ) (ne : tail ≢ []) where
    skip_words :
        (t : ℕ) (vs : List ℕ)
        → IsArg (words t vs)
        → drop (offset + c.i) bytes ≡ arg_bytes (words t vs) ++ tail
        → skip_array bytes offset c ≡ done (record c { i = c.i + length (arg_bytes (words t vs)) })
    unfolding arg_bytes skip_elements
    skip_words t vs h e =
        let whole = drop_append-lt (offset + c.i) bytes (arg_bytes (words t vs)) tail ne e in
        let k = length (encode_var_int (length vs)) in
        let size = length-append (encode_var_int (length vs)) (words_bytes vs) in
        rw
          (
            array_head t (length vs) c (words_bytes vs ++ tail) h.1
                (append-ne-nil (words_bytes vs) tail ne) (rw e (simp append_assoc)),
            h.0,
          )
          (ground (
            arith,
            size,
            length-words_bytes vs,
            add64_lem (2 + k) (4 * length vs % 2 ^ 64),
            add64_lem c.i (2 + k + 4 * length vs % 2 ^ 64),
          ))

    skip_text_array :
        (ts : List (List ℕ))
        → IsArg (texts ts)
        → drop (offset + c.i) bytes ≡ arg_bytes (texts ts) ++ tail
        → skip_array bytes offset c ≡ done (record c { i = c.i + length (arg_bytes (texts ts)) })
    unfolding arg_bytes skip_elements is_word
    skip_text_array ts h e =
        let whole = drop_append-lt (offset + c.i) bytes (arg_bytes (texts ts)) tail ne e in
        let k = length (encode_var_int (length ts)) in
        let size = length-append (encode_var_int (length ts)) (texts_bytes ts) in
        let e' : drop (offset + c.i) bytes
            ≡ 0x21 ∷ 0x20 ∷ encode_var_int (length ts) ++ (texts_bytes ts ++ tail) =
          rw e (simp append_assoc) in
        rw
          (
            array_head 0x20 (length ts) c (texts_bytes ts ++ tail) h.0
                (append-ne-nil (texts_bytes ts) tail ne) e',
            skip_texts-append ts c.i (2 + k) tail h.1 ne (
                drop_eq bytes
                  (drop-append (offset + c.i) bytes (0x21 ∷ 0x20 ∷ encode_var_int (length ts))
                    (texts_bytes ts ++ tail) e')
                  (omega arith)),
            add64_lem c.i (2 + k + length (texts_bytes ts)) (omega (arith, size)),
          )
          (ground (arith, size))

    skip_fds :
        (ns more : List ℕ)
        → IsArg (fds ns)
        → c.fds ≡ ns ++ more
        → drop (offset + c.i) bytes ≡ arg_bytes (fds ns) ++ tail
        → skip_array bytes offset c
          ≡ done
              (record { i = c.i + length (arg_bytes (fds ns)); fds = more; taken = c.taken ++ ns })
    unfolding arg_bytes skip_elements is_word
    skip_fds ns more h ef e =
        let whole = drop_append-lt (offset + c.i) bytes (arg_bytes (fds ns)) tail ne e in
        let k = length (encode_var_int (length ns)) in
        rw
          (
            array_head 0x40 (length ns) c tail h ne e,
            ef,
            take_fds-append ns more c.taken c.i,
            add64_lem c.i (2 + k) (omega arith),
          )
          (ground arith)

  -- An argument is walked over in one round, whatever stands before and behind it.
  skip_arg-append :
      (a : Arg) (fuel i : ℕ) (more taken tail : List ℕ)
      → IsArg a
      → tail ≢ []
      → drop (offset + i) bytes ≡ arg_bytes a ++ tail
      → skip_args (suc fuel) bytes offset (record { i = i; fds = arg_fds a ++ more; taken = taken })
        ≡ skip_args fuel bytes offset
            (record { i = i + length (arg_bytes a); fds = more; taken = taken ++ arg_fds a })
  unfolding arg_bytes arg_fds skip_arg is_word
  skip_arg-append (word t v) fuel i more taken tail h ne e =
      let whole = drop_append-lt (offset + i) bytes (arg_bytes (word t v)) tail ne e in
      rw append-nil (
        skip_step fuel t _ _ (u32_bytes v ++ tail) (word_ne_end t h.0) e
          (rw (h.0, add64_lem i 5 (omega arith))))
  skip_arg-append (text s) fuel i more taken tail h ne e =
      let whole = drop_append-lt (offset + i) bytes (arg_bytes (text s)) tail ne e in
      rw append-nil (
        skip_step fuel 0x20 _ _ (text_bytes s ++ tail) (λ p. cc) e
          (rw
            (
              add64_lem offset i (omega arith),
              add64_lem (offset + i) 1 (omega arith),
              (text_at s bytes (offset + i + 1) tail h ne (rw (drop-add, e))).number,
              add64_lem (length s) (prefix s) (omega (arith, length-text_bytes s)),
              add64_lem (length s + prefix s) 1 (omega (arith, length-text_bytes s)),
              add64_lem i (length s + prefix s + 1) (omega (arith, length-text_bytes s)),
            )
            (ground (arith, length-text_bytes s))))
  skip_arg-append (fd n) fuel i more taken tail h ne e =
      let whole = drop_append-lt (offset + i) bytes (arg_bytes (fd n)) tail ne e in
      skip_step fuel 0x40 _ _ tail (λ p. cc) e
        (rw (take_fds-append (n ∷ []) more taken i, add64_lem i 1 (omega arith)))
  skip_arg-append (words t vs) fuel i more taken tail h ne e =
      let c : Cursor = record { i = i; fds = more; taken = taken } in
      rw append-nil (skip_step fuel 0x21 c _ _ (λ p. cc) e (skip_words c tail ne t vs h e))
  skip_arg-append (texts ts) fuel i more taken tail h ne e =
      let c : Cursor = record { i = i; fds = more; taken = taken } in
      rw append-nil (skip_step fuel 0x21 c _ _ (λ p. cc) e (skip_text_array c tail ne ts h e))
  skip_arg-append (fds ns) fuel i more taken tail h ne e =
      let c : Cursor = record { i = i; fds = ns ++ more; taken = taken } in
      skip_step fuel 0x21 c _ _ (λ p. cc) e (skip_fds c tail ne ns more h refl e)

  -- The walk ends at the END behind the arguments; a round for each argument and one for END are
  -- fuel enough.
  skip_args-append :
      (args : List Arg) (fuel i : ℕ) (more taken rest : List ℕ)
      → All IsArg args
      → length args < fuel
      → drop (offset + i) bytes ≡ args_bytes args ++ 0 ∷ rest
      → skip_args fuel bytes offset (record { i = i; fds = args_fds args ++ more; taken = taken })
        ≡ done (record {
          i = i + length (args_bytes args);
          fds = more;
          taken = taken ++ args_fds args;
        })
  unfolding args_bytes args_fds
  skip_args-append [] zero i more taken rest h hf e = absurd (omega arith)
  skip_args-append [] (suc fuel) i more taken rest h hf e =
      unfold skip_args in
      rw
        (
          append-nil,
          add64_lem offset i (omega (arith, drop_cons-lt (offset + i) bytes e)),
          at_lem bytes (offset + i) 0 rest e,
        )
        (ground arith)
  skip_args-append (a ∷ args) zero i more taken rest h hf e = absurd (omega arith)
  skip_args-append (a ∷ args) (suc fuel) i more taken rest h hf e =
      let tail : List ℕ = args_bytes args ++ 0 ∷ rest in
      let e' : drop (offset + i) bytes ≡ arg_bytes a ++ tail =
        rw e (append_assoc (arg_bytes a) (args_bytes args) (0 ∷ rest)) in
      rw (append_assoc (arg_fds a) (args_fds args) more) (
        skip_arg-append a fuel i (args_fds args ++ more) taken tail h.0
          (append_cons-ne-nil (args_bytes args) 0 rest) e')
      ∙ skip_args-append args fuel (i + length (arg_bytes a)) more (taken ++ arg_fds a) rest h.1
          (omega arith)
          (drop_eq bytes (drop-append (offset + i) bytes (arg_bytes a) tail e') (omega arith))
      ∙ rw (append_assoc taken (arg_fds a) (args_fds args))
          (ground (arith, length-append (arg_bytes a) (args_bytes args)))

-- A generic message that call wrote is found whole wherever it stands in a buffer below 2^63 bytes:
-- its object, its method, the span of its arguments, its length, and its descriptors, which leave
-- the queue in order while those of later messages stay. Fuel above the number of arguments is
-- enough.
pub parse_generic-encode :
    (object method : ℕ) (args : List Arg) (bytes : List ℕ) (offset fuel : ℕ) (more rest : List ℕ)
    → IsU32 object
    → IsU32 method
    → All IsArg args
    → length args < fuel
    → length bytes < 2 ^ 63
    → drop offset bytes ≡ generic_bytes object method args ++ rest
    → parse_generic fuel bytes (args_fds args ++ more) offset
      ≡ done (
        record {
          object = object;
          depends_on_seq = 0;
          method = method;
          span = args_bytes args ++ 0 ∷ rest;
          span_size = length (args_bytes args) + 1;
          fds = args_fds args;
        },
        length (generic_bytes object method args),
        more,
      )
unfolding parse_generic generic_bytes
parse_generic-encode object method args bytes offset fuel more rest ho hm ha hf fits e =
    let body : List ℕ = args_bytes args ++ 0 ∷ rest in
    let e11 : drop (offset + 11) bytes ≡ body = rw (drop-add, e) (simp append_assoc) in
    let whole = drop_append-lt (offset + 11) bytes (args_bytes args) (0 ∷ rest) (λ p. cc) e11 in
    let n = length (args_bytes args) in
    rw
      (
        expect_in bytes offset _ e 0 100 refl,
        expect_in bytes offset _ e 1 0x22 refl,
        read_u32_in bytes offset _ e 2 object _ ho refl,
        expect_in bytes offset _ e 6 0x10 refl,
        read_u32_in bytes offset _ e 7 method _ hm refl,
        skip_args-append bytes offset fits args fuel 11 more [] rest ha hf e11,
        e11,
        add64_lem (11 + n) 1 (omega arith),
        sub64_lem (11 + n + 1) 11 (omega arith) (omega arith),
      )
      (ground (arith, length-append (args_bytes args) (0 ∷ [])))

-- ===== src/WireObject/RoundTrip/Decode.antt =====
-- The second loop of IWireObject::called on arguments that were written.
use hyprwire_debian.Base.{
  ℕ, zero, suc, ◌+◌, ◌-◌, ◌^◌, ◌<◌, ◌≡◌, refl, arith, List, [], ◌∷◌, ◌++◌, length, length-append,
  drop, drop-append, drop_eq, drop-add, All, IsU32, u32_bytes, u32_of-bytes, sub64_lem, true,
  lt→ltb,
}
use hyprwire_debian.Outcome.{done, peek, copy_text}
use hyprwire_debian.Outcome.Laws.{copy_text_lem}
use hyprwire_debian.VarInt.{encode_var_int}
use hyprwire_debian.VarInt.RoundTrip.{parse_var_int_span-encode}
use hyprwire_debian.Wire.Magic.{is_word}
use hyprwire_debian.Message.Handshake.{words_bytes, text_bytes, texts_bytes}
use hyprwire_debian.Message.RoundTrip.Texts.{length-words_bytes}
use hyprwire_debian.Message.RoundTrip.Text.{IsShort, prefix, length-text_bytes}
use hyprwire_debian.Message.Generic.RoundTrip.{text_span}
use hyprwire_debian.Message.Generic.Args.{
  Arg, word, text, fd, words, texts, fds, IsArg, arg_bytes, arg_fds, args_bytes, args_fds, arg_code,
  arg_bytes-cons, arg_code-ne-end,
}
use hyprwire_debian.WireObject.Demarshal.{
  Span, span_at, fine, unchecked_u32, next_fds, decode_words, decode_texts, decode_elements,
  decode_array, decode_text, decode_fd, decode_word, decode_arg, decode_args, is_known,
}
use mathlib.Core.List.{append_assoc}

pub unchecked_u32_lem :
    (mem : List ℕ) (p v : ℕ) (rest : List ℕ)
    → IsU32 v
    → drop p mem ≡ u32_bytes v ++ rest
    → unchecked_u32 mem p ≡ done v
unfolding unchecked_u32
unchecked_u32_lem mem p v rest h e = rw (e, unchecked_u32) (ground (arith, u32_of-bytes v))

next_fds-append : (ns more : List ℕ) → next_fds (length ns) (ns ++ more) ≡ done (ns, more)
unfolding next_fds
next_fds-append [] more = refl
next_fds-append (n ∷ ns) more = rw (next_fds-append ns more)

decode_words-append :
    (vs mem : List ℕ) (p : ℕ) (rest : List ℕ)
    → All IsU32 vs
    → drop p mem ≡ words_bytes vs ++ rest
    → decode_words mem p (length vs) ≡ done vs
unfolding decode_words words_bytes
decode_words-append [] mem p rest h e = refl
decode_words-append (v ∷ vs) mem p rest h e =
    let e' : drop p mem ≡ u32_bytes v ++ (words_bytes vs ++ rest) = e in
    rw (
      unchecked_u32_lem mem p v (words_bytes vs ++ rest) h.0 e',
      decode_words-append vs mem (p + 4) rest h.1 (rw (drop-add, e) refl),
    )

text_copy :
    (t mem : List ℕ) (p : ℕ) (tail : List ℕ)
    → drop p mem ≡ text_bytes t ++ tail
    → copy_text mem (p + prefix t) (length t) ≡ done t
unfolding text_bytes
text_copy t mem p tail e = copy_text_lem mem (p + prefix t) t tail (
    drop-append p mem (encode_var_int (length t)) (t ++ tail)
      (rw e (append_assoc (encode_var_int (length t)) t tail)))

arg_code-is_known : (a : Arg) → IsArg a → is_known (arg_code a) ≡ true
unfolding is_word is_known
arg_code-is_known (word t v) h = ground arith
arg_code-is_known (text x) h = refl
arg_code-is_known (fd n) h = refl
arg_code-is_known (words t vs) h = refl
arg_code-is_known (texts ts) h = refl
arg_code-is_known (fds ns) h = refl

-- `s` is a span that goes on behind what is read.
module _ (s : Span) (fits : s.size < 2 ^ 63) where
  pub span_at_lem :
      (p b : ℕ) (rest : List ℕ) → p < s.size → drop p s.mem ≡ b ∷ rest → span_at s p ≡ done b
  unfolding span_at peek
  span_at_lem p b rest h e = rw (lt→ltb p s.size h, e)

  decode_texts-append :
      (ts : List (List ℕ)) (p len : ℕ) (tail : List ℕ)
      → All IsShort ts
      → p + len + length (texts_bytes ts) < s.size
      → drop (p + len) s.mem ≡ texts_bytes ts ++ tail
      → decode_texts s p len (length ts) ≡ done (ts, len + length (texts_bytes ts))
  unfolding decode_texts texts_bytes
  decode_texts-append [] p len tail h room e = ground arith
  decode_texts-append (t ∷ ts) p len tail h room e =
      let size = length-append (text_bytes t) (texts_bytes ts) in
      let after : List ℕ = texts_bytes ts ++ tail in
      let e' : drop (p + len) s.mem ≡ text_bytes t ++ after =
        rw e (append_assoc (text_bytes t) (texts_bytes ts) tail) in
      let behind : drop (p + (len + prefix t + length t)) s.mem ≡ after =
        drop_eq s.mem (drop-append (p + len) s.mem (text_bytes t) after e')
          (omega (arith, length-text_bytes t)) in
      rw
        (
          sub64_lem s.size p (omega arith) (omega arith),
          text_span t s.mem (p + len) (s.size - p) after h.0
              (omega (arith, size, length-text_bytes t)) e',
          text_copy t s.mem (p + len) after e',
          decode_texts-append ts p (len + prefix t + length t) tail h.1
              (omega (arith, size, length-text_bytes t)) (drop_eq s.mem behind (omega arith)),
        )
        (ground (arith, size, length-text_bytes t))

  module _ (p : ℕ) (more tail : List ℕ) where
    -- The number in front of an array's elements.
    decode_head :
        (t n : ℕ) (after : List ℕ)
        → n < 2 ^ 28
        → p + 2 + length (encode_var_int n) < s.size
        → drop p s.mem ≡ 0x21 ∷ t ∷ encode_var_int n ++ after
        → decode_array s p more ≡ decode_elements s t p n (2 + length (encode_var_int n)) more
    unfolding decode_array
    decode_head t n after h room e = rw (
      span_at_lem (p + 1) t (encode_var_int n ++ after) (omega arith) (rw (drop-add, e)),
      sub64_lem s.size p (omega arith) (omega arith),
      parse_var_int_span-encode n s.mem (p + 2) (s.size - p) after h (omega arith)
          (rw (drop-add, e)),
    )

  -- One argument: its value, the place behind it, and the descriptors that are left.
  decode_arg-append :
      (a : Arg) (p : ℕ) (more tail : List ℕ)
      → IsArg a
      → p + length (arg_bytes a) < s.size
      → drop p s.mem ≡ arg_bytes a ++ tail
      → decode_arg s (arg_code a) p (arg_fds a ++ more)
        ≡ done (fine (a, p + length (arg_bytes a), more))
  unfolding arg_bytes arg_fds decode_arg is_word decode_elements
  decode_arg-append (word t v) p more tail h room e =
      unfold decode_word in rw (h.0, unchecked_u32_lem s.mem (p + 1) v tail h.1 (rw (drop-add, e)))
  decode_arg-append (text x) p more tail h room e =
      let len = length-text_bytes x in
      let e' : drop (p + 1) s.mem ≡ text_bytes x ++ tail = rw (drop-add, e) refl in
      let same : p + 1 + prefix x ≡ p + prefix x + 1 = omega arith in
      let copied : copy_text s.mem (p + prefix x + 1) (length x) ≡ done x =
        rw same at (text_copy x s.mem (p + 1) tail e') in
      unfold decode_text in
      rw
        (
          sub64_lem s.size p (omega arith) (omega arith),
          sub64_lem (s.size - p) 1 (omega arith) (omega arith),
          text_span x s.mem (p + 1) (s.size - p - 1) tail h (omega (arith, len)) e',
          copied,
        )
        (ground (arith, len))
  decode_arg-append (fd n) p more tail h room e =
      unfold decode_fd in rw (next_fds-append (n ∷ []) more)
  decode_arg-append (words t vs) p more tail h room e =
      let size = length-append (encode_var_int (length vs)) (words_bytes vs) in
      let k = length (encode_var_int (length vs)) in
      let after : List ℕ = words_bytes vs ++ tail in
      let e' : drop p s.mem ≡ 0x21 ∷ t ∷ encode_var_int (length vs) ++ after =
        rw e (simp append_assoc) in
      rw
        (
          decode_head p more tail t (length vs) after h.1 (omega (arith, size)) e',
          h.0,
          decode_words-append vs s.mem (p + (2 + k)) tail h.2 (
              drop_eq s.mem (drop-append p s.mem (0x21 ∷ t ∷ encode_var_int (length vs)) after e')
                (omega arith)),
        )
        (ground (arith, size, length-words_bytes vs))
  decode_arg-append (texts ts) p more tail h room e =
      let size = length-append (encode_var_int (length ts)) (texts_bytes ts) in
      let k = length (encode_var_int (length ts)) in
      let after : List ℕ = texts_bytes ts ++ tail in
      let e' : drop p s.mem ≡ 0x21 ∷ 0x20 ∷ encode_var_int (length ts) ++ after =
        rw e (simp append_assoc) in
      rw
        (
          decode_head p more tail 0x20 (length ts) after h.0 (omega (arith, size)) e',
          decode_texts-append ts p (2 + k) tail h.1 (omega (arith, size)) (
              drop_eq s.mem
                (drop-append p s.mem (0x21 ∷ 0x20 ∷ encode_var_int (length ts)) after e')
                (omega arith)),
        )
        (ground (arith, size))
  decode_arg-append (fds ns) p more tail h room e =
      rw
        (
          decode_head p (ns ++ more) tail 0x40 (length ns) tail h (omega arith) e,
          next_fds-append ns more,
        )
        (ground arith)

  -- The loop gives back the arguments, in order; fuel as for the walk.
  pub decode_args-append :
      (args : List Arg) (fuel p : ℕ) (more rest : List ℕ)
      → All IsArg args
      → length args < fuel
      → p + length (args_bytes args) < s.size
      → drop p s.mem ≡ args_bytes args ++ 0 ∷ rest
      → decode_args fuel s p (args_fds args ++ more) ≡ done (fine args)
  unfolding decode_args args_bytes args_fds
  decode_args-append args zero p more rest h hf room e = absurd (omega arith)
  decode_args-append [] (suc fuel) p more rest h hf room e =
      ground (arith, span_at_lem p 0 rest (omega arith) e)
  decode_args-append (a ∷ args) (suc fuel) p more rest h hf room e =
      let tail : List ℕ = args_bytes args ++ 0 ∷ rest in
      let size = length-append (arg_bytes a) (args_bytes args) in
      let e' : drop p s.mem ≡ arg_bytes a ++ tail =
        rw e (append_assoc (arg_bytes a) (args_bytes args) (0 ∷ rest)) in
      let (front, starts) = arg_bytes-cons a in
      rw (append_assoc (arg_fds a) (args_fds args) more) (
        ground (
          arith,
          span_at_lem p (arg_code a) (front ++ tail) (omega arith) (rw (e', starts)),
          arg_code-ne-end a h.0,
          arg_code-is_known a h.0,
          decode_arg-append a p (args_fds args ++ more) tail h.0 (omega (arith, size)) e',
          decode_args-append args fuel (p + length (arg_bytes a)) more rest h.1 (omega arith)
              (omega (arith, size)) (drop-append p s.mem (arg_bytes a) tail e'),
        ))

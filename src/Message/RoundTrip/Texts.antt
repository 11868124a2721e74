-- ===== src/Message/RoundTrip/Texts.antt =====
-- The messages that hold arrays and strings.
use hyprwire_debian.Base.{
  ℕ, ◌+◌, ◌*◌, ◌^◌, ◌<◌, ◌≡◌, refl, arith, List, [], ◌∷◌, ◌++◌, length, length-append, drop,
  drop-add, drop-append, drop_eq, IsU32, u32_of-bytes, All,
}
use hyprwire_debian.Message.RoundTrip.Text.{IsShort, prefix, length-text_bytes, TextAt, text_at}
use hyprwire_debian.Outcome.Laws.{expect_in, resize_lem, finish_lem, append_cons-ne-nil}
use hyprwire_debian.Outcome.{done, read_u32}
use hyprwire_debian.VarInt.{encode_var_int}
use hyprwire_debian.VarInt.RoundTrip.{parse_var_int-encode}
use hyprwire_debian.Message.Handshake.{
  read_words, words_bytes, parse_handshake_begin, encode_handshake_begin, read_texts, text_bytes,
  texts_bytes, parse_handshake_protocols, encode_handshake_protocols,
}
use mathlib.Core.List.{append_assoc}

pub read_words-append :
    (vs : List ℕ) (bytes : List ℕ) (p : ℕ) (rest : List ℕ)
    → All IsU32 vs
    → drop p bytes ≡ words_bytes vs ++ rest
    → (read_words bytes p (length vs) ≡ done vs) × (drop (p + length vs * 4) bytes ≡ rest)
unfolding read_words words_bytes read_u32
read_words-append [] bytes p rest h e = (refl, rw (drop-add, e))
read_words-append (v ∷ vs) bytes p rest h e =
    let e' : drop (p + 4) bytes ≡ words_bytes vs ++ rest = rw (drop-add, e) refl in
    let (ih, end) = read_words-append vs bytes (p + 4) rest h.1 e' in
    (rw e (ground (arith, u32_of-bytes v, ih)), drop_eq bytes end (omega arith))

pub length-words_bytes : (vs : List ℕ) → length (words_bytes vs) ≡ length vs * 4
unfolding words_bytes
length-words_bytes [] = refl
length-words_bytes (v ∷ vs) = omega (arith, length-words_bytes vs)

-- A HANDSHAKE_BEGIN message of fewer than 2^28 versions of 32 bits is decoded to the versions that
-- were encoded, with its length, wherever it stands in a buffer.
pub parse_handshake_begin-encode :
    (versions : List ℕ) (bytes : List ℕ) (offset : ℕ) (rest : List ℕ)
    → All IsU32 versions
    → length versions < 2 ^ 28
    → drop offset bytes ≡ encode_handshake_begin versions ++ rest
    → parse_handshake_begin bytes offset ≡ done (versions, length (encode_handshake_begin versions))
unfolding parse_handshake_begin encode_handshake_begin
parse_handshake_begin-encode versions bytes offset rest hv hl e =
    rw
      (
        expect_in bytes offset _ e 0 2 refl,
        expect_in bytes offset _ e 1 0x21 refl,
        expect_in bytes offset _ e 2 0x10 refl,
        parse_var_int-encode n bytes (offset + 3) after hl e3,
        resize_lem 4 n (omega arith) hl,
        words.0,
        finish_lem bytes offset (3 + k + n * 4) versions rest (drop_eq bytes words.1 (omega arith)),
      )
      (ground (
        arith,
        length-words_bytes versions,
        length-append (encode_var_int n) (words_bytes versions ++ 0 ∷ []),
        length-append (words_bytes versions) (0 ∷ []),
      ))
  where
    n : ℕ
    n = length versions

    k : ℕ
    k = length (encode_var_int n)

    after : List ℕ
    after = words_bytes versions ++ 0 ∷ rest

    e3 : drop (offset + 3) bytes ≡ encode_var_int (length versions) ++ after
    e3 = rw (drop-add, e) (simp append_assoc)

    words :
        (read_words bytes (offset + 3 + k) n ≡ done versions)
        × (drop (offset + 3 + k + n * 4) bytes ≡ 0 ∷ rest)
    words =
        read_words-append versions bytes (offset + 3 + k) (0 ∷ rest) hv
          (drop-append (offset + 3) bytes _ _ e3)

-- The loop over the strings, and what it leaves behind.
read_texts-append :
    (ts : List (List ℕ)) (bytes : List ℕ) (offset needle : ℕ) (rest : List ℕ)
    → All IsShort ts
    → drop (offset + needle) bytes ≡ texts_bytes ts ++ 0 ∷ rest
    → (read_texts bytes offset needle (length ts) ≡ done (ts, needle + length (texts_bytes ts)))
      × (drop (offset + (needle + length (texts_bytes ts))) bytes ≡ 0 ∷ rest)
unfolding read_texts texts_bytes
read_texts-append [] bytes offset needle rest h e = (ground arith, drop_eq bytes e (omega arith))
read_texts-append (t ∷ ts) bytes offset needle rest h e =
    let tail : List ℕ = texts_bytes ts ++ 0 ∷ rest in
    let found : TextAt t bytes (offset + needle) tail =
      text_at t bytes (offset + needle) tail h.0 (append_cons-ne-nil (texts_bytes ts) 0 rest)
        (rw e (append_assoc (text_bytes t) (texts_bytes ts) (0 ∷ rest))) in
    let (rest_read, rest_end) =
      read_texts-append ts bytes offset (needle + prefix t + length t) rest h.1
        (drop_eq bytes found.behind (omega arith)) in
    let size = length-append (text_bytes t) (texts_bytes ts) in
    (
      rw (found.number, found.viewed, rest_read) (ground (arith, size, length-text_bytes t)),
      drop_eq bytes rest_end (omega (arith, size, length-text_bytes t)),
    )

-- A HANDSHAKE_PROTOCOLS message of fewer than 2^28 texts, each below 2^28 bytes, is decoded to the
-- texts that were encoded, with its length, wherever it stands in a buffer.
pub parse_handshake_protocols-encode :
    (protocols : List (List ℕ)) (bytes : List ℕ) (offset : ℕ) (rest : List ℕ)
    → All IsShort protocols
    → length protocols < 2 ^ 28
    → drop offset bytes ≡ encode_handshake_protocols protocols ++ rest
    → parse_handshake_protocols bytes offset
      ≡ done (protocols, length (encode_handshake_protocols protocols))
unfolding parse_handshake_protocols encode_handshake_protocols
parse_handshake_protocols-encode protocols bytes offset rest hv hl e =
    rw
      (
        expect_in bytes offset _ e 0 4 refl,
        expect_in bytes offset _ e 1 0x21 refl,
        expect_in bytes offset _ e 2 0x20 refl,
        parse_var_int-encode n bytes (offset + 3) after hl e3,
        resize_lem 32 n (omega arith) hl,
        texts.0,
        finish_lem bytes offset (3 + k + length (texts_bytes protocols)) protocols rest texts.1,
      )
      (ground (
        arith,
        length-append (encode_var_int n) (texts_bytes protocols ++ 0 ∷ []),
        length-append (texts_bytes protocols) (0 ∷ []),
      ))
  where
    n : ℕ
    n = length protocols

    k : ℕ
    k = length (encode_var_int n)

    after : List ℕ
    after = texts_bytes protocols ++ 0 ∷ rest

    e3 : drop (offset + 3) bytes ≡ encode_var_int n ++ after
    e3 = rw (drop-add, e) (simp append_assoc)

    texts :
        (read_texts bytes offset (3 + k) n
          ≡ done (protocols, 3 + k + length (texts_bytes protocols)))
        × (drop (offset + (3 + k + length (texts_bytes protocols))) bytes ≡ 0 ∷ rest)
    texts =
        read_texts-append protocols bytes offset (3 + k) rest hv
          (drop_eq bytes (drop-append (offset + 3) bytes (encode_var_int n) after e3) (omega arith))

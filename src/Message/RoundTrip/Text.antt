-- ===== src/Message/RoundTrip/Text.antt =====
-- A length-prefixed text in a buffer.
use hyprwire_debian.Base.{
  ℕ, ◌+◌, ◌^◌, ◌<◌, ◌≡◌, ◌≢◌, List, [], ◌++◌, length, length-append, drop, drop-append,
}
use hyprwire_debian.Outcome.{done, read_text, copy_text}
use hyprwire_debian.Outcome.Laws.{read_text_lem, copy_text_lem}
use hyprwire_debian.VarInt.{parse_var_int, encode_var_int}
use hyprwire_debian.VarInt.RoundTrip.{parse_var_int-encode}
use hyprwire_debian.Message.Handshake.{text_bytes}
use mathlib.Core.List.{append_assoc}

abbrev pub IsShort : List ℕ → Type 0
IsShort text = length text < 2 ^ 28

-- The length of a text's number.
abbrev pub prefix : List ℕ → ℕ
prefix text = length (encode_var_int (length text))

pub length-text_bytes : (t : List ℕ) → length (text_bytes t) ≡ prefix t + length t
unfolding text_bytes
length-text_bytes t = length-append (encode_var_int (length t)) t

-- The text stands at `p`, and `tail` behind it: what the reads there give.
pub record TextAt (text bytes : List ℕ) (p : ℕ) (tail : List ℕ) : Type 0 where
  pub number : parse_var_int bytes p ≡ done (length text, prefix text)
  pub viewed : read_text bytes (p + prefix text) (length text) ≡ done text
  pub copied : copy_text bytes (p + prefix text) (length text) ≡ done text
  pub behind : drop (p + prefix text + length text) bytes ≡ tail

pub text_at :
    (text bytes : List ℕ) (p : ℕ) (tail : List ℕ)
    → IsShort text
    → tail ≢ []
    → drop p bytes ≡ text_bytes text ++ tail
    → TextAt text bytes p tail
unfolding text_bytes
text_at text bytes p tail h ne e = record {
  number = parse_var_int-encode (length text) bytes p (text ++ tail) h e';
  viewed = read_text_lem bytes (p + prefix text) text tail ne ek;
  copied = copy_text_lem bytes (p + prefix text) text tail ek;
  behind = drop-append (p + prefix text) bytes text tail ek;
}
  where
    e' : drop p bytes ≡ encode_var_int (length text) ++ (text ++ tail)
    e' = rw e (append_assoc (encode_var_int (length text)) text tail)

    ek : drop (p + prefix text) bytes ≡ text ++ tail
    ek = drop-append p bytes (encode_var_int (length text)) (text ++ tail) e'

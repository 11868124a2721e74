-- ===== src/Message/Trace.antt =====
-- IMessage::parseData and formatPrimitiveType of src/core/message/messages/IMessage.cpp: the text of
-- a message in the log.
pub mod Items
use hyprwire_debian.Base.{
  ℕ, zero, suc, ◌+◌, ◌-◌, ◌^◌, Bool, true, false, List, [], ◌∷◌, ◌++◌, ltb, leb, ◌==◌,
  if◌then◌else◌, length, take, drop, sub64,
}
use hyprwire_debian.Outcome.{Outcome, done, crash, stuck, peek, copy_text, ◌>>=◌}
use hyprwire_debian.VarInt.{parse_var_int}
use hyprwire_debian.Wire.Magic
use hyprwire_debian.Wire.MessageType.{message_type_to_str}
use hyprwire_debian.Wire.Decimal.{decimal}
use hyprwire_debian.WireObject.Spec.{is_empty}
use hyprwire_debian.WireObject.Demarshal.{Span, unchecked_u32}
use hyprwire_debian.Scanner.Text.{Text, codes}

-- std::format of an int32_t, from its 32 bits.
unfoldable pub i32_text : ℕ → Text
i32_text v = if ltb v (2 ^ 31) then decimal v else codes "-" ++ decimal (2 ^ 32 - v)

unfoldable pub quoted : Text → Text
quoted t = codes "\"" ++ (t ++ codes "\"")

unfoldable pub null_or : ℕ → Text
null_or id = if id == 0 then codes "null" else decimal id

-- `if (result.at(result.size() - 2) == ',')`: the last two characters are taken back.
unfoldable pub drop_comma : Text → Text
drop_comma t = elim (drop (length t - 2) t) [
  | [] ↦ t
  | c ∷ cs ↦ if c == b',' then take (length t - 2) t else t
]

-- `float_text` is std::format of a float, from its bits.
module _ (float_text : ℕ → Text) where
  -- A value of four bytes, if there are four; and its length.
  abbrev pub format_word : Span → (ℕ → Text) → Outcome (Text × ℕ)
  format_word s f = elim (ltb s.size 4) [
    | true ↦ done ([], 0)
    | false ↦ do v ← unchecked_u32 s.mem 0; done (f v, 4)
  ]

  -- A text in an array: its length is read from a copy of the span without its last byte. Of a
  -- span without bytes that would be a vector of -1 bytes.
  unfoldable pub format_text : Span → Outcome (Text × ℕ)
  unfolding quoted
  format_text s = if s.size == 0 then crash else (do
    front ← copy_text s.mem 0 (s.size - 1)
    (len, int_len) ← parse_var_int front 0
    t ← copy_text s.mem int_len len
    done (quoted t, len + int_len))

  -- formatPrimitiveType
  unfoldable pub format_primitive_type : Span → ℕ → Outcome (Text × ℕ)
  unfolding format_text i32_text null_or
  format_primitive_type s type_code =
      if type_code == Magic.uint
      then format_word s decimal
      else if type_code == Magic.int
      then format_word s i32_text
      else if type_code == Magic.f32
      then format_word s float_text
      else if type_code == Magic.fd
      then done (codes "<fd>", 0)
      else if type_code == Magic.object
      then format_word s (λ id. codes "object: " ++ null_or id)
      else if type_code == Magic.varchar
      then format_text s
      else done ([], 0)

  -- The elements of an array, with ", " behind each, and the needle behind them.
  unfoldable pub format_elements : List ℕ → ℕ → ℕ → ℕ → Outcome (Text × ℕ)
  unfolding format_primitive_type
  format_elements bytes needle type_code zero = done ([], needle)
  format_elements bytes needle type_code (suc n) = do
    (str, len) ←
        format_primitive_type
          (record { mem = drop needle bytes; size = sub64 (length bytes) needle }) type_code
    (rest, last) ← format_elements bytes (needle + len) type_code n
    done (str ++ (codes ", " ++ rest), last)

  -- One code's `case`: what is appended, and the needle behind it.
  abbrev pub trace_word : List ℕ → ℕ → (ℕ → Text) → Outcome (Text × ℕ)
  trace_word bytes needle f = elim (leb 4 (length bytes - needle)) [
    | true ↦ do v ← unchecked_u32 bytes needle; done (f v, needle + 4)
    | false ↦ done ([], needle)
  ]

  unfoldable pub trace_text : List ℕ → ℕ → Outcome (Text × ℕ)
  unfolding quoted
  trace_text bytes needle = do
    (len, int_len) ← parse_var_int bytes needle
    t ← copy_text bytes (needle + int_len) len
    done (quoted t, needle + (int_len + len))

  -- Two characters are taken back behind the last element.
  unfoldable pub trace_array : List ℕ → ℕ → Outcome (Text × ℕ)
  unfolding format_elements
  trace_array bytes needle = do
    type_code ← peek bytes needle
    (els, int_len) ← parse_var_int bytes (needle + 1)
    (text, last) ← format_elements bytes (needle + 1 + int_len) type_code els
    done (codes "{ " ++ (take (length text - 2) text ++ codes " }"), last)

  unfoldable pub trace_code : List ℕ → ℕ → ℕ → Outcome (Text × ℕ)
  unfolding trace_text trace_array i32_text
  trace_code bytes needle code =
      if code == Magic.seq
      then trace_word bytes needle (λ v. codes "seq: " ++ i32_text v)
      else if code == Magic.uint
      then trace_word bytes needle decimal
      else if code == Magic.int
      then trace_word bytes needle i32_text
      else if code == Magic.f32
      then trace_word bytes needle float_text
      else if code == Magic.varchar
      then trace_text bytes needle
      else if code == Magic.array
      then trace_array bytes needle
      else if code == Magic.object
      then trace_word bytes needle (λ v. codes "object(" ++ (decimal v ++ codes ")"))
      else if code == Magic.fd
      then done (codes "<fd>", needle)
      else done ([], needle)

  -- The loop. Each round takes a byte, so that the size of the message is fuel enough. END ends no
  -- more than its `case`.
  unfoldable pub trace_loop : ℕ → List ℕ → ℕ → Outcome Text
  unfolding trace_code
  trace_loop zero bytes needle = stuck
  trace_loop (suc fuel) bytes needle = elim (ltb needle (length bytes)) [
    | false ↦ done []
    | true ↦ do
      code ← peek bytes needle
      (text, next) ← trace_code bytes (needle + 1) code
      rest ← trace_loop fuel bytes next
      done (text ++ (codes ", " ++ rest))
  ]

  -- IMessage::parseData of a message's type and bytes
  unfoldable pub parse_data : ℕ → List ℕ → Outcome Text
  unfolding trace_loop drop_comma
  parse_data type_code bytes = do
    text ← trace_loop (length bytes + 1) bytes 1
    done (
        drop_comma (drop_comma (codes (message_type_to_str type_code) ++ (codes " ( " ++ text)))
        ++ codes " ) ")

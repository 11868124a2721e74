-- ===== src/Message/Trace/Items.antt =====
-- What the log shows of a message of words and texts (IMessage::parseData).
use mathlib.Core.List.{append_assoc}
use hyprwire_debian.Base.{
  ℕ, suc, ◌+◌, ◌-◌, ◌^◌, ◌<◌, ◌≤◌, ◌≡◌, refl, sym, ap, ◌∙◌, arith, List, [], ◌∷◌, ◌++◌, map, length,
  length-append, length-drop, take, drop, drop-add, drop_cons-lt, drop-append, drop-length_append,
  take-length_append, IsU32, u32_bytes, u32_of-bytes, All, lt→ltb, ge→ltb, le→leb,
}
use hyprwire_debian.Outcome.{done, peek, ◌>>=◌}
use hyprwire_debian.Outcome.Laws.{copy_text_lem}
use hyprwire_debian.VarInt.{encode_var_int}
use hyprwire_debian.VarInt.RoundTrip.{parse_var_int-encode}
use hyprwire_debian.Wire.Decimal.{decimal}
use hyprwire_debian.Wire.MessageType.{message_type_to_str}
use hyprwire_debian.WireObject.Demarshal.{unchecked_u32}
use hyprwire_debian.Message.Handshake.{text_bytes}
use hyprwire_debian.Scanner.Text.{Text, codes, each}
use hyprwire_debian.Scanner.Generated.{comma_join}
use hyprwire_debian.Scanner.Generated.Texts.{separated, each-separated}
use hyprwire_debian.Message.Trace.{
  i32_text, quoted, trace_word, trace_text, trace_code, trace_loop, drop_comma, parse_data,
}

-- The arguments of a message that are no arrays, as they stand on the wire and in the log.
pub data Item : Type 0 where
  sequence number integer object : ℕ → Item
  string : Text → Item

abbrev pub IsItem : Item → Type 0
IsItem (sequence n) = IsU32 n
IsItem (number n) = IsU32 n
IsItem (integer n) = IsU32 n
IsItem (object n) = IsU32 n
IsItem (string t) = length t < 2 ^ 28

abbrev pub item_code : Item → ℕ
item_code (sequence n) = 0x13
item_code (number n) = 0x10
item_code (integer n) = 0x11
item_code (object n) = 0x22
item_code (string t) = 0x20

unfoldable pub item_tail : Item → List ℕ
item_tail (sequence n) = u32_bytes n
item_tail (number n) = u32_bytes n
item_tail (integer n) = u32_bytes n
item_tail (object n) = u32_bytes n
item_tail (string t) = text_bytes t

unfoldable pub items_bytes : List Item → List ℕ
unfolding item_tail
items_bytes [] = []
items_bytes (i ∷ is) = item_code i ∷ (item_tail i ++ items_bytes is)

unfoldable pub item_text : Item → Text
item_text (sequence n) = codes "seq: " ++ i32_text n
item_text (number n) = decimal n
item_text (integer n) = i32_text n
item_text (object n) = codes "object(" ++ (decimal n ++ codes ")")
item_text (string t) = quoted t

module _ (float_text : ℕ → Text) (bytes : List ℕ) where
  word_at :
      (p n : ℕ) (rest : List ℕ)
      → IsU32 n
      → drop p bytes ≡ u32_bytes n ++ rest
      → unchecked_u32 bytes p ≡ done n
  unfolding unchecked_u32
  word_at p n rest h e = rw (unchecked_u32, e) (ap (λ v. done v) (u32_of-bytes n h))

  word-trace :
      (p n : ℕ) (rest : List ℕ) (f : ℕ → Text)
      → IsU32 n
      → drop p bytes ≡ u32_bytes n ++ rest
      → trace_word float_text bytes p f ≡ done (f n, p + 4)
  word-trace p n rest f h e =
      let room : 4 ≤ length bytes - p = omega (arith, length-drop p bytes, ap length e) in
      rw (trace_word, le→leb 4 (length bytes - p) room, word_at p n rest h e) refl

  text-trace :
      (p : ℕ) (t rest : List ℕ)
      → length t < 2 ^ 28
      → drop p bytes ≡ text_bytes t ++ rest
      → trace_text float_text bytes p ≡ done (quoted t, p + length (text_bytes t))
  unfolding trace_text text_bytes
  text-trace p t rest h e =
      let e' : drop p bytes ≡ encode_var_int (length t) ++ (t ++ rest) =
        rw e (append_assoc (encode_var_int (length t)) t rest) in
      let k = length (encode_var_int (length t)) in
      let behind : drop (p + k) bytes ≡ t ++ rest =
        drop-append p bytes (encode_var_int (length t)) (t ++ rest) e' in
      rw
        (
          parse_var_int-encode (length t) bytes p (t ++ rest) h e',
          copy_text_lem bytes (p + k) t rest behind,
          length-append (encode_var_int (length t)) t,
        )
        refl

  item-trace_code :
      (i : Item) (p : ℕ) (rest : List ℕ)
      → IsItem i
      → drop p bytes ≡ item_tail i ++ rest
      → trace_code float_text bytes p (item_code i) ≡ done (item_text i, p + length (item_tail i))
  unfolding trace_code item_tail item_text
  item-trace_code (sequence n) p rest h e =
      word-trace p n rest (λ v. codes "seq: " ++ i32_text v) h e
  item-trace_code (number n) p rest h e = word-trace p n rest decimal h e
  item-trace_code (integer n) p rest h e = word-trace p n rest i32_text h e
  item-trace_code (object n) p rest h e =
      word-trace p n rest (λ v. codes "object(" ++ (decimal v ++ codes ")")) h e
  item-trace_code (string t) p rest h e = text-trace p t rest h e

  abbrev shown : List Item → List Text
  shown is = map item_text is

  -- One round of the loop, and its end.
  round-trace_loop :
      (p q fuel code : ℕ) (t rest : List ℕ)
      → drop p bytes ≡ code ∷ rest
      → trace_code float_text bytes (p + 1) code ≡ done (t, q)
      → trace_loop float_text (suc fuel) bytes p
        ≡ (trace_loop float_text fuel bytes q >>= λ more. done (t ++ (codes ", " ++ more)))
  unfolding trace_loop peek
  round-trace_loop p q fuel code t rest e h =
      rw (trace_loop, lt→ltb p (length bytes) (drop_cons-lt p bytes e), e, h) refl

  end-trace_loop :
      (p fuel : ℕ) → length bytes ≤ p → trace_loop float_text (suc fuel) bytes p ≡ done []
  unfolding trace_loop
  end-trace_loop p fuel h = rw (trace_loop, ge→ltb p (length bytes) h) refl

  end-trace_code : (p : ℕ) → trace_code float_text bytes p 0 ≡ done ([], p)
  unfolding trace_code
  end-trace_code p = refl

  items-trace_loop :
      (is : List Item) (p fuel : ℕ)
      → All IsItem is
      → drop p bytes ≡ items_bytes is ++ 0 ∷ []
      → trace_loop float_text (length is + 2 + fuel) bytes p
        ≡ done (each separated (shown is) ++ codes ", ")
  unfolding items_bytes
  items-trace_loop [] p fuel h e =
      let size : length bytes ≤ p + 1 = omega (arith, length-drop p bytes, ap length e) in
      let fuels : 0 + 2 + fuel ≡ suc (suc fuel) = omega arith in
      rw
        (
          fuels,
          round-trace_loop p (p + 1) (suc fuel) 0 [] [] e (end-trace_code (p + 1)),
          end-trace_loop (p + 1) fuel size,
        )
        refl
  items-trace_loop (i ∷ is) p fuel h e =
      let fuels : suc (length is) + 2 + fuel ≡ suc (length is + 2 + fuel) = omega arith in
      let e1 : drop (p + 1) bytes ≡ item_tail i ++ (items_bytes is ++ 0 ∷ []) =
        drop-add p 1 bytes ∙ ap (drop 1) e ∙ append_assoc (item_tail i) (items_bytes is) (0 ∷ []) in
      let e2 = drop-append (p + 1) bytes (item_tail i) (items_bytes is ++ 0 ∷ []) e1 in
      rw
        (
          fuels,
          round-trace_loop p (p + 1 + length (item_tail i)) (length is + 2 + fuel) (item_code i)
              (item_text i) _ e (item-trace_code i (p + 1) _ h.0 e1),
          items-trace_loop is (p + 1 + length (item_tail i)) fuel h.1 e2,
        )
        (ap (λ x. done x)
          (sym (
            append_assoc (separated (item_text i)) (each separated (shown is)) (codes ", ")
            ∙ append_assoc (item_text i) (codes ", ") (each separated (shown is) ++ codes ", "))))

  -- The loop has fuel enough.
  length-items_bytes : (is : List Item) → length is ≤ length (items_bytes is)
  unfolding items_bytes
  length-items_bytes [] = omega arith
  length-items_bytes (i ∷ is) =
      omega (arith, length-items_bytes is, length-append (item_tail i) (items_bytes is))

-- What is taken back at the end.
drop_comma-separated : (t : Text) → drop_comma (separated t) ≡ t
unfolding drop_comma
drop_comma-separated t =
    let n : length (separated t) - 2 ≡ length t = omega (arith, length-append t (codes ", ")) in
    rw (drop_comma, n, drop-length_append t (codes ", "))
      (ap (λ k. take k (separated t)) n ∙ take-length_append t (codes ", "))

drop_comma-bracket : (t : Text) → drop_comma (t ++ codes "( ") ≡ t ++ codes "( "
unfolding drop_comma
drop_comma-bracket t =
    let n : length (t ++ codes "( ") - 2 ≡ length t = omega (arith, length-append t (codes "( ")) in
    rw (drop_comma, n, drop-length_append t (codes "( ")) refl

finish-text :
    (name : Text) (ts : List Text)
    → drop_comma (drop_comma (name ++ (codes " ( " ++ (each separated ts ++ codes ", "))))
      ≡ name ++ (codes " ( " ++ comma_join ts)
unfolding comma_join
finish-text name [] =
    let whole : name ++ (codes " ( " ++ codes ", ") ≡ separated (name ++ codes " ( ") =
      sym (append_assoc name (codes " ( ") (codes ", ")) in
    let split : (name ++ codes " ") ++ codes "( " ≡ name ++ codes " ( " =
      append_assoc name (codes " ") (codes "( ") in
    ap drop_comma (ap drop_comma whole ∙ drop_comma-separated (name ++ codes " ( "))
    ∙ ap drop_comma (sym split)
    ∙ drop_comma-bracket (name ++ codes " ")
    ∙ split
finish-text name (t ∷ ts) =
    let c = comma_join (t ∷ ts) in
    let whole : name ++ (codes " ( " ++ (separated c ++ codes ", "))
        ≡ separated (separated (name ++ (codes " ( " ++ c))) =
      simp append_assoc refl in
    rw (each-separated t ts, whole, drop_comma-separated (separated (name ++ (codes " ( " ++ c))))
      (drop_comma-separated (name ++ (codes " ( " ++ c)))

-- parseData of a message whose arguments are 32-bit sequence numbers, unsigned and signed numbers
-- and objects and texts below 2^28 bytes, with an END, reads nothing outside of it and shows the
-- message's name and, in brackets, its arguments with commas between: the signs of the sequence
-- numbers and the signed numbers, objects as object(n), texts in quotes.
pub parse_data-items :
    (float_text : ℕ → Text) (type_code : ℕ) (is : List Item)
    → All IsItem is
    → parse_data float_text type_code (type_code ∷ items_bytes is ++ 0 ∷ [])
      ≡ done (
          codes (message_type_to_str type_code)
          ++ (codes " ( " ++ (comma_join (map item_text is) ++ codes " ) ")))
unfolding parse_data
parse_data-items float_text type_code is h =
    let bytes = type_code ∷ items_bytes is ++ 0 ∷ [] in
    let name = codes (message_type_to_str type_code) in
    let fuel : length is + 2 + (length bytes - (length is + 1)) ≡ length bytes + 1 =
      omega
        (arith, length-items_bytes float_text bytes is, length-append (items_bytes is) (0 ∷ [])) in
    rw
      (
        ← fuel,
        items-trace_loop float_text bytes is 1 (length bytes - (length is + 1)) h refl,
        finish-text name (map item_text is),
      )
      (ap (λ x. done x)
        (append_assoc name (codes " ( " ++ comma_join (map item_text is)) (codes " ) ")
          ∙ ap (λ x. name ++ x)
              (append_assoc (codes " ( ") (comma_join (map item_text is)) (codes " ) "))))

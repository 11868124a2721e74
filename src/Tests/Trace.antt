-- ===== src/Tests/Trace.antt =====
-- The text of a message in the log.
use hyprwire_debian.Base.{ℕ, ◌≡◌, refl, arith, List, [], ◌∷◌, ◌++◌, map}
use hyprwire_debian.Outcome.{done}
use hyprwire_debian.Wire.Decimal.{decimal, decimal_digits}
use hyprwire_debian.Wire.MessageType
use hyprwire_debian.Wire.MessageType.{message_type_to_str}
use hyprwire_debian.Scanner.Text.{Text, codes}
use hyprwire_debian.Scanner.Generated.{comma_join}
use hyprwire_debian.Message.Trace.{parse_data, i32_text, quoted}
use hyprwire_debian.Message.Trace.Items.{
  Item, sequence, number, string, item_text, items_bytes, parse_data-items,
}

abbrev no_floats : ℕ → Text
no_floats bits = []

-- A BIND_PROTOCOL message.
abbrev items : List Item
items = sequence 7 ∷ string (codes "proto") ∷ number 1 ∷ []

parse_data-items_example :
    parse_data no_floats MessageType.bind_protocol
      (MessageType.bind_protocol ∷ items_bytes items ++ 0 ∷ [])
    ≡ done (
        codes (message_type_to_str MessageType.bind_protocol)
        ++ (codes " ( " ++ (comma_join (map item_text items) ++ codes " ) ")))
parse_data-items_example =
    parse_data-items no_floats MessageType.bind_protocol items
      (omega arith, (omega arith, (omega arith, tt)))

-- The text that the theorem gives.
bind_shown :
    codes "BIND_PROTOCOL" ++ (codes " ( " ++ (comma_join (map item_text items) ++ codes " ) "))
    ≡ codes "BIND_PROTOCOL ( seq: 7, \"proto\", 1 ) "
unfolding comma_join item_text i32_text decimal decimal_digits quoted
bind_shown = refl

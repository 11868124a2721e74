-- ===== src/Scanner/Types.antt =====
-- The types of arguments in scanner/main.cpp: strToMagic, magicToString, argToC and argsToC.
use hyprwire_debian.Base.{ℕ, Bool, not, ◌&&◌, List, [], ◌∷◌, ◌++◌, ◌==◌, if◌then◌else◌, take}
use hyprwire_debian.Wire.Magic
use hyprwire_debian.Message.Hello.{bytes_eq}
use hyprwire_debian.WireObject.Spec.{is_empty}
use hyprwire_debian.Scanner.Text.{Text, codes, underscore, camelize, drop_separator, format}

-- SRequestArgument
pub record RequestArgument : Type 0 where
  pub magic : ℕ
  pub arr_type : ℕ
  pub interface : Text
  pub name : Text
  pub allow_null : Bool
  pub is_enum : Bool

-- strToMagic
unfoldable pub str_to_magic : Text → ℕ
str_to_magic sv =
    if bytes_eq sv (codes "varchar")
    then Magic.varchar
    else if bytes_eq sv (codes "uint")
    then Magic.uint
    else if bytes_eq sv (codes "enum")
    then Magic.uint
    else if bytes_eq sv (codes "int")
    then Magic.int
    else if bytes_eq sv (codes "f32")
    then Magic.f32
    else if bytes_eq sv (codes "fd")
    then Magic.fd
    else if bytes_eq (take 6 sv) (codes "array ")
    then Magic.array
    else Magic.end

-- magicToString of a type that is no array, or that is one of no element type.
unfoldable pub scalar_to_string : ℕ → Text
scalar_to_string m =
    if m == Magic.varchar
    then codes "Hyprwire::HW_MESSAGE_MAGIC_TYPE_VARCHAR"
    else if m == Magic.uint
    then codes "Hyprwire::HW_MESSAGE_MAGIC_TYPE_UINT"
    else if m == Magic.int
    then codes "Hyprwire::HW_MESSAGE_MAGIC_TYPE_INT"
    else if m == Magic.f32
    then codes "Hyprwire::HW_MESSAGE_MAGIC_TYPE_F32"
    else if m == Magic.fd
    then codes "Hyprwire::HW_MESSAGE_MAGIC_TYPE_FD"
    else if m == Magic.array
    then codes "Hyprwire::HW_MESSAGE_MAGIC_TYPE_ARRAY, "
    else []

-- magicToString. The inner call has the element type END, whose text is empty.
unfoldable pub magic_to_string : ℕ → ℕ → Text
unfolding scalar_to_string
magic_to_string m arr_type =
    if m == Magic.array
    then codes "Hyprwire::HW_MESSAGE_MAGIC_TYPE_ARRAY, " ++ scalar_to_string arr_type
    else scalar_to_string m

-- argToC of a type
unfoldable pub magic_to_c : ℕ → Text
magic_to_c m =
    if m == Magic.varchar
    then codes "const char*"
    else if m == Magic.uint
    then codes "uint32_t"
    else if m == Magic.int
    then codes "int32_t"
    else if m == Magic.f32
    then codes "float"
    else if m == Magic.fd
    then codes "int"
    else []

-- argToC of an argument; `proto` is PROTO_DATA.nameOriginal.
unfoldable pub arg_to_c : Text → RequestArgument → Text
unfolding magic_to_c
arg_to_c proto arg =
    if arg.magic == Magic.uint && arg.is_enum
    then camelize (proto ++ underscore ∷ arg.interface)
    else if arg.magic == Magic.array
    then codes "const std::vector<" ++ (magic_to_c arg.arr_type ++ codes ">&")
    else magic_to_c arg.magic

-- The flags of argsToC.
pub record Style : Type 0 where
  pub no_names : Bool
  pub no_types : Bool
  pub add_sequence : Bool
  pub pure_c : Bool
  pub un_c : Bool

-- One argument, with the separator behind it.
unfoldable pub plain_to_c : Text → Style → RequestArgument → Text
unfolding arg_to_c format
plain_to_c proto s m =
    if s.no_types
    then format (codes "{}, ") (m.name ∷ [])
    else if s.no_names
    then format (codes "{}, ") (arg_to_c proto m ∷ [])
    else format (codes "{} {}, ") (arg_to_c proto m ∷ m.name ∷ [])

unfoldable pub array_to_pure_c : Style → RequestArgument → Text
unfolding magic_to_c format
array_to_pure_c s m =
    if s.no_types
    then format (codes "{}.data(), (uint32_t){}.size(), ") (m.name ∷ m.name ∷ [])
    else if s.no_names
    then format (codes "{}*, uint32_t, ") (magic_to_c m.arr_type ∷ [])
    else format (codes "{}* {}, uint32_t {}, ")
        (magic_to_c m.arr_type ∷ m.name ∷ (m.name ++ codes "_len") ∷ [])

unfoldable pub array_from_c : Text → Style → RequestArgument → Text
unfolding plain_to_c
array_from_c proto s m =
    if s.no_types
    then format (codes "std::vector<{}>{{ {}, {} + {} }}, ")
        (magic_to_c m.arr_type ∷ m.name ∷ m.name ∷ (m.name ++ codes "_len") ∷ [])
    else plain_to_c proto s m

unfoldable pub one_to_c : Text → Style → RequestArgument → Text
unfolding plain_to_c array_to_pure_c array_from_c
one_to_c proto s m =
    if not (m.arr_type == Magic.end) && s.pure_c
    then array_to_pure_c s m
    else if not (m.arr_type == Magic.end) && s.un_c
    then array_from_c proto s m
    else plain_to_c proto s m

unfoldable pub all_to_c : Text → Style → List RequestArgument → Text
unfolding one_to_c
all_to_c proto s [] = []
all_to_c proto s (m ∷ ms) = one_to_c proto s m ++ all_to_c proto s ms

-- The sequence number in front.
unfoldable pub sequence_to_c : Style → Text
sequence_to_c s =
    if not s.add_sequence
    then []
    else if s.no_types
    then codes "seq, "
    else if s.no_names
    then codes "uint32_t, "
    else codes "uint32_t seq, "

-- argsToC
unfoldable pub args_to_c : Text → Style → List RequestArgument → Text
unfolding sequence_to_c all_to_c drop_separator
args_to_c proto s args =
    let cstr = sequence_to_c s ++ all_to_c proto s args in
    if is_empty cstr then cstr else drop_separator cstr

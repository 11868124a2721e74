-- ===== src/Scanner/Generated.antt =====
-- What the code that scanner/main.cpp writes for a method means to the compiler: the parameters of
-- its SMethod, and the C++ declarations of the function that libffi calls.
pub mod Listener
pub mod Texts
pub mod Types
use hyprwire_debian.Base.{
  ℕ, Bool, true, false, not, ◌≡◌, List, [], ◌∷◌, ◌++◌, ◌==◌, if◌then◌else◌, map,
}
use hyprwire_debian.Wire.Magic
use hyprwire_debian.Message.Hello.{bytes_eq}
use hyprwire_debian.WireObject.Spec.{Method, is_empty}
use hyprwire_debian.WireObject.Demarshal.{FfiType, uint32, sint32, float, pointer}
use hyprwire_debian.Scanner.Text.{Text, codes}
use hyprwire_debian.Scanner.Types.{RequestArgument, Style, arg_to_c, magic_to_c}
use hyprwire_debian.Scanner.Protocol.{Xml, MethodSpec}

-- The types that a protocol's specification may name.
pub data Basic : Type 0 where
  varchar uint enum int f32 fd : Basic

pub data ArgType : Type 0 where
  one : Basic → ArgType
  array_of : Basic → ArgType

abbrev pub basic_text : Basic → Text
basic_text varchar = codes "varchar"
basic_text uint = codes "uint"
basic_text enum = codes "enum"
basic_text int = codes "int"
basic_text f32 = codes "f32"
basic_text fd = codes "fd"

abbrev pub type_text : ArgType → Text
type_text (one b) = basic_text b
type_text (array_of b) = codes "array " ++ basic_text b

abbrev pub basic_code : Basic → ℕ
basic_code varchar = Magic.varchar
basic_code uint = Magic.uint
basic_code enum = Magic.uint
basic_code int = Magic.int
basic_code f32 = Magic.f32
basic_code fd = Magic.fd

-- The type of an argument that was read.
abbrev pub HasType : RequestArgument → ArgType → Type 0
HasType a (one b) = (a.magic ≡ basic_code b) × (a.arr_type ≡ Magic.end)
HasType a (array_of b) = (a.magic ≡ Magic.array) × (a.arr_type ≡ basic_code b)

-- Every `arg` among the nodes names a type.
abbrev pub NamesTypes : (xml : Xml) → List xml.Node → Type 0
NamesTypes xml [] = Unit
NamesTypes xml (p ∷ ps) =
    (bytes_eq (xml.name p) (codes "arg") ≡ true
      → (t : ArgType) × (xml.as_string p (codes "type") ≡ type_text t))
    × NamesTypes xml ps

abbrev pub Typed : List RequestArgument → Type 0
Typed [] = Unit
Typed (a ∷ as_) = ((t : ArgType) × HasType a t) × Typed as_

-- The codes of the initialiser `.params = { ... }`.
unfoldable pub arg_codes : RequestArgument → List ℕ
arg_codes a = if a.magic == Magic.array then Magic.array ∷ a.arr_type ∷ [] else a.magic ∷ []

unfoldable pub params_of : List RequestArgument → List ℕ
unfolding arg_codes
params_of [] = []
params_of (a ∷ as_) = arg_codes a ++ params_of as_

-- The SMethod that the header declares. Only a client's method has `.returnsType`.
unfoldable pub method_of : Bool → MethodSpec → Method
unfolding params_of
method_of from_client m = record {
  idx = m.idx;
  params = params_of m.args;
  returns_type = if from_client then m.returns else [];
  since = m.since;
}

-- A C++ parameter: its type, and the name behind it.
pub data CType : Type 0 where
  text u32 s32 single descriptor : CType
  enumeration : Text → CType
  elements : CType → CType

unfoldable pub spell : CType → Text
spell text = codes "const char*"
spell u32 = codes "uint32_t"
spell s32 = codes "int32_t"
spell single = codes "float"
spell descriptor = codes "int"
spell (enumeration name) = name
spell (elements t) = spell t ++ codes "*"

-- How the ABI passes it. The enums are declared over uint32_t.
unfoldable pub abi : CType → FfiType
abi text = pointer
abi u32 = uint32
abi s32 = sint32
abi single = float
abi descriptor = sint32
abi (enumeration name) = uint32
abi (elements t) = pointer

unfoldable pub declaration : CType × Text → Text
unfolding spell
declaration (t, name) = spell t ++ (codes " " ++ name)

unfoldable pub basic_c : ℕ → CType
basic_c code =
    if code == Magic.varchar
    then text
    else if code == Magic.uint
    then u32
    else if code == Magic.int
    then s32
    else if code == Magic.f32
    then single
    else descriptor

-- The parameters of an argument. The enum's name is the one that argToC gives.
unfoldable pub arg_params : Text → RequestArgument → List (CType × Text)
unfolding basic_c
arg_params proto a =
    if a.magic == Magic.array
    then (elements (basic_c a.arr_type), a.name) ∷ (u32, a.name ++ codes "_len") ∷ []
    else if a.magic == Magic.uint
    then ((if a.is_enum then enumeration (arg_to_c proto a) else u32), a.name) ∷ []
    else (basic_c a.magic, a.name) ∷ []

unfoldable pub args_params : Text → List RequestArgument → List (CType × Text)
unfolding arg_params
args_params proto [] = []
args_params proto (a ∷ as_) = arg_params proto a ++ args_params proto as_

-- The parameters of the listener behind the object.
unfoldable pub listener_params : Text → Bool → MethodSpec → List (CType × Text)
unfolding args_params
listener_params proto from_client m =
    (if is_empty (method_of from_client m).returns_type then [] else (u32, codes "seq") ∷ [])
    ++ args_params proto m.args

-- `a, b, c`
unfoldable pub comma_join : List Text → Text
comma_join [] = []
comma_join (t ∷ []) = t
comma_join (t ∷ u ∷ us) = t ++ (codes ", " ++ comma_join (u ∷ us))

-- The name of a code in C++.
unfoldable pub code_name : ℕ → Text
code_name c = codes "Hyprwire::HW_MESSAGE_MAGIC_TYPE_" ++ codes (Magic.magic_to_string c)

-- ===== src/Scanner/Protocol.antt =====
-- The specification that scanProtocol reads (scanner/main.cpp). The tree is pugixml's: what the
-- scanner asks of it is a parameter.
use hyprwire_debian.Base.{
  ℕ, ◌+◌, ◌%◌, ◌^◌, Bool, true, false, List, [], ◌∷◌, ◌++◌, ◌==◌, if◌then◌else◌, drop,
}
use hyprwire_debian.Wire.Magic
use hyprwire_debian.Message.Hello.{bytes_eq}
use hyprwire_debian.Scanner.Text.{Text, codes, underscore, camelize}
use hyprwire_debian.Scanner.Types.{RequestArgument, str_to_magic}

-- pugi::xml_node, with its attributes as texts, as 32 bits of an `int`, and as Booleans. A child or
-- an attribute that is missing is an empty one.
pub record Xml : Type 1 where
  pub Node : Type 0
  pub name : Node → Text
  pub children : Node → List Node
  pub child : Node → Text → Node
  pub child_value : Node → Text
  pub as_string : Node → Text → Text
  pub as_int : Node → Text → ℕ → ℕ
  pub as_bool : Node → Text → Bool

-- SMethodSpec
pub record MethodSpec : Type 0 where
  pub args : List RequestArgument
  pub name : Text
  pub since : ℕ
  pub returns : Text
  pub destructor : Bool
  pub idx : ℕ

-- SObjectSpec
pub record ObjectSpec : Type 0 where
  pub s2c : List MethodSpec
  pub c2s : List MethodSpec
  pub name : Text
  pub name_camel : Text
  pub version : ℕ

-- SEnumSpec
pub record EnumSpec : Type 0 where
  pub interface : Text
  pub name_camel : Text
  pub entries : List (ℕ × Text)

-- PROTO_DATA
pub record ProtoData : Type 0 where
  pub name : Text
  pub name_original : Text
  pub file_name : Text
  pub version : ℕ

module _ (xml : Xml) where
  open xml use {Node}

  -- An `arg`. Only a method of the client has an interface and can be of an enum.
  unfoldable pub scan_arg : Bool → Node → RequestArgument
  scan_arg from_client p =
      let type_name = xml.as_string p (codes "type") in
      let magic = str_to_magic type_name in
      record {
        magic = magic;
        arr_type = if magic == Magic.array then str_to_magic (drop 6 type_name) else Magic.end;
        interface = if from_client then xml.as_string p (codes "interface") else [];
        name = xml.as_string p (codes "name");
        allow_null = xml.as_bool p (codes "allow_null");
        is_enum = if from_client then bytes_eq type_name (codes "enum") else false;
      }

  unfoldable pub scan_args : Bool → List Node → List RequestArgument
  unfolding scan_arg
  scan_args from_client [] = []
  scan_args from_client (p ∷ ps) =
      let rest = scan_args from_client ps in
      if bytes_eq (xml.name p) (codes "arg") then scan_arg from_client p ∷ rest else rest

  -- The last `returns` counts.
  unfoldable pub scan_returns : Text → List Node → Text
  scan_returns found [] = found
  scan_returns found (p ∷ ps) =
      scan_returns
        (if bytes_eq (xml.name p) (codes "returns") then xml.as_string p (codes "iface") else found)
        ps

  unfoldable pub scan_method : Bool → Node → ℕ → MethodSpec
  unfolding scan_args scan_returns
  scan_method from_client m idx = record {
    args = scan_args from_client (xml.children m);
    name = xml.as_string m (codes "name");
    since = xml.as_int m (codes "since") 0;
    returns = scan_returns [] (xml.children m);
    destructor = xml.as_bool m (codes "destructor");
    idx = idx;
  }

  -- The methods of a direction, numbered by `currentIdx`.
  unfoldable pub scan_methods : Bool → Text → List Node → ℕ → List MethodSpec
  unfolding scan_method
  scan_methods from_client direction [] idx = []
  scan_methods from_client direction (m ∷ ms) idx = elim (bytes_eq (xml.name m) direction) [
    | true ↦
        scan_method from_client m idx ∷ scan_methods from_client direction ms ((idx + 1) % 2 ^ 32)
    | false ↦ scan_methods from_client direction ms idx
  ]

  unfoldable pub scan_object : Node → ObjectSpec
  unfolding scan_methods
  scan_object c = record {
    s2c = scan_methods false (codes "s2c") (xml.children c) 0;
    c2s = scan_methods true (codes "c2s") (xml.children c) 0;
    name = xml.as_string c (codes "name");
    name_camel = camelize (xml.as_string c (codes "name"));
    version = xml.as_int c (codes "version") 0;
  }

  -- The entries of an enum: every child is one.
  unfoldable pub scan_entries : List Node → List (ℕ × Text)
  scan_entries [] = []
  scan_entries (c ∷ cs) =
      (xml.as_int c (codes "idx") 0, xml.as_string c (codes "name")) ∷ scan_entries cs

  unfoldable pub scan_enum : ProtoData → Node → EnumSpec
  unfolding scan_entries
  scan_enum proto c =
      let interface = proto.name_original ++ underscore ∷ xml.as_string c (codes "name") in
      record {
        interface = interface;
        name_camel = camelize interface;
        entries = scan_entries (xml.children c);
      }

  -- The two loops of scanProtocol, over the children of `protocol`.
  unfoldable pub scan_enums : ProtoData → List Node → List EnumSpec
  unfolding scan_enum
  scan_enums proto [] = []
  scan_enums proto (c ∷ cs) =
      let rest = scan_enums proto cs in
      if bytes_eq (xml.name c) (codes "enum") then scan_enum proto c ∷ rest else rest

  unfoldable pub scan_objects : List Node → List ObjectSpec
  unfolding scan_object
  scan_objects [] = []
  scan_objects (c ∷ cs) =
      let rest = scan_objects cs in
      if bytes_eq (xml.name c) (codes "object") then scan_object c ∷ rest else rest

  -- scanProtocol: ENUM_SPECS and OBJECT_SPECS.
  unfoldable pub scan_protocol : ProtoData → Node → List EnumSpec × List ObjectSpec
  unfolding scan_enums scan_objects
  scan_protocol proto doc =
      let nodes = xml.children (xml.child doc (codes "protocol")) in
      (scan_enums proto nodes, scan_objects nodes)

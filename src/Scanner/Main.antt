-- ===== src/Scanner/Main.antt =====
-- main of scanner/main.cpp: the arguments, the document, and the files that are written.
use hyprwire_debian.Base.{
  ℕ, Bool, true, false, ◌||◌, ◌⊎◌, inl, inr, List, [], ◌∷◌, ◌++◌, ◌==◌, if◌then◌else◌, take, length,
  sub64,
}
use hyprwire_debian.Message.Hello.{bytes_eq}
use hyprwire_debian.WireObject.Spec.{is_empty}
use hyprwire_debian.Scanner.Text.{Text, codes, lines, camelize, format}
use hyprwire_debian.Scanner.Protocol.{Xml, ObjectSpec, ProtoData, scan_protocol}
use hyprwire_debian.Scanner.Header.{protocol_header}
use hyprwire_debian.Scanner.Client.{client_header, client_source}
use hyprwire_debian.Scanner.Server.{server_header, server_source}

-- What the loop over `argv` comes to: `-v` was met, or one path too many, or all arguments are read.
pub data Command : Type 0 where
  show_version : Command
  too_many : Text → Command
  generate : Bool → Text → Text → Command

-- `pathsTaken`
pub data Paths : Type 0 where
  no_path : Paths
  proto_path : Text → Paths
  both_paths : Text → Text → Paths

unfoldable pub is_version : Text → Bool
is_version arg = bytes_eq arg (codes "-v") || bytes_eq arg (codes "--version")

unfoldable pub is_client : Text → Bool
is_client arg = bytes_eq arg (codes "-c") || bytes_eq arg (codes "--client")

-- The loop over the arguments behind the program's name.
unfoldable pub read_args : Bool → Paths → List Text → Command
unfolding is_version is_client
read_args client no_path [] = generate client [] []
read_args client (proto_path p) [] = generate client p []
read_args client (both_paths p o) [] = generate client p o
read_args client paths (arg ∷ args) = elim (is_version arg) [
  | true ↦ show_version
  | false ↦ elim (is_client arg) [
    | true ↦ read_args true paths args
    | false ↦ elim paths [
      | no_path ↦ read_args client (proto_path arg) args
      | proto_path p ↦ read_args client (both_paths p arg) args
      | both_paths p o ↦ too_many arg
    ]
  ]
]

-- What stands behind the last '/'.
unfoldable pub base_name : Text → Text → Text
base_name found [] = found
base_name found (c ∷ cs) = base_name (if c == b'/' then cs else found) cs

-- The name of the file without its last four characters. Of a name with less than four the count
-- wraps, and `substr` takes it all.
unfoldable pub file_stem : Text → Text
unfolding base_name
file_stem path = let base = base_name path path in take (sub64 (length base) 4) base

-- What the program prints, the files it writes, and what it returns. A file that cannot be opened
-- is not written and not reported.
pub record Run : Type 0 where
  pub out : Text
  pub err : Text
  pub files : List (Text × Text)
  pub status : ℕ

abbrev heart : Text
heart = 226 ∷ 157 ∷ 164 ∷ 239 ∷ 184 ∷ 143 ∷ []

-- The suffixes of the two files of an implementation.
abbrev pub side : Bool → Text
side true = codes "-client"
side false = codes "-server"

-- `load` is pugixml's load_file: the document, or the description of what went wrong.
module _ (xml : Xml) (load : Text → xml.Node ⊎ Text) (scanner_version : Text) where
  open xml use {Node}

  unfoldable pub proto_data : Text → Node → ProtoData
  unfolding file_stem
  proto_data protopath doc =
      let protocol = xml.child doc (codes "protocol") in
      let name = xml.as_string protocol (codes "name") in
      record {
        name = camelize name;
        name_original = name;
        file_name = file_stem protopath;
        version = xml.as_int protocol (codes "version") 1;
      }

  unfoldable pub copyright : ProtoData → Node → Text
  unfolding format
  copyright proto doc =
      format
        (codes "// Generated with hyprwire-scanner {}. Made with vaxry's keyboard and "
          ++ (heart
              ++ lines (
                  "." ∷ "// {}" ∷ "" ∷ "/*" ∷ " This protocol's authors' copyright notice is:" ∷ ""
                  ∷ "{}" ∷ "*/" ∷ "" ∷ "" ∷ [])))
        (scanner_version
          ∷ proto.name_original
          ∷ xml.child_value (xml.child (xml.child doc (codes "protocol")) (codes "copyright"))
          ∷ [])

  -- HEADER_IMPL and SOURCE
  unfoldable pub implementation : Bool → ProtoData → List ObjectSpec → Text × Text
  implementation true proto objects = (client_header proto objects, client_source proto objects)
  implementation false proto objects = (server_header proto objects, server_source proto objects)

  unfoldable pub written : Bool → Text → Text → ProtoData → Text → Text × Text → List (Text × Text)
  written client outpath notice proto header impl =
      let stem = outpath ++ (codes "/" ++ proto.name_original) in
      (stem ++ codes "-spec.hpp", notice ++ header)
      ∷ (stem ++ (side client ++ codes ".hpp"), notice ++ impl.0)
      ∷ (stem ++ (side client ++ codes ".cpp"), notice ++ impl.1)
      ∷ []

  -- From "build!" on.
  unfoldable pub build : Bool → Text → Text → Node → List (Text × Text)
  unfolding proto_data copyright implementation written
  build client protopath outpath doc =
      let proto = proto_data protopath doc in
      let specs = scan_protocol xml proto doc in
      written client outpath (copyright proto doc) proto (protocol_header proto specs.0 specs.1)
        (implementation client proto specs.1)

  unfoldable pub run_command : Command → Run
  unfolding build
  run_command show_version = record {
    out = scanner_version ++ 10 ∷ [];
    err = [];
    files = [];
    status = 0;
  }
  run_command (too_many arg) = record {
    out = codes "Too many args or unknown arg " ++ (arg ++ 10 ∷ []);
    err = [];
    files = [];
    status = 1;
  }
  run_command (generate client protopath outpath) =
      if is_empty outpath || is_empty protopath
      then record { out = []; err = codes "Not enough args\n"; files = []; status = 1 }
      else elim (load protopath) [
        | inr why ↦ record {
          out = [];
          err = codes "Couldn't load proto: " ++ (why ++ 10 ∷ []);
          files = [];
          status = 1;
        }
        | inl doc ↦ record {
          out = [];
          err = [];
          files = build client protopath outpath doc;
          status = 0;
        }
      ]

  -- main, of the arguments behind the program's name
  unfoldable pub main : List Text → Run
  unfolding run_command
  main args = run_command (read_args false no_path args)

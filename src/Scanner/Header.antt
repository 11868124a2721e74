-- ===== src/Scanner/Header.antt =====
-- generateProtocolHeader (scanner/main.cpp): what is written to HEADER_PROTOCOL.
use hyprwire_debian.Base.{ℕ, List, [], ◌∷◌, ◌++◌, if◌then◌else◌}
use hyprwire_debian.WireObject.Spec.{is_empty}
use hyprwire_debian.Wire.Decimal.{decimal}
use hyprwire_debian.Scanner.Text.{
  Text, codes, lines, each, capitalize, uppercase, drop_separator, drop_last, underscore, format,
}
use hyprwire_debian.Scanner.Types.{RequestArgument, magic_to_string}
use hyprwire_debian.Scanner.Protocol.{MethodSpec, ObjectSpec, EnumSpec, ProtoData}

-- An entry of an enum.
unfoldable pub entry_text : EnumSpec → ℕ × Text → Text
entry_text e (id, name) =
    format (codes "\t{} = {},\n") (uppercase (e.interface ++ underscore ∷ name) ∷ decimal id ∷ [])

unfoldable pub enum_text : EnumSpec → Text
unfolding entry_text
enum_text e =
    format (lines ("" ∷ "enum {} : uint32_t {{" ∷ "" ∷ [])) (e.name_camel ∷ [])
    ++ (each (entry_text e) e.entries ++ codes "};\n")

-- `argArrayStr`: the types of a method's arguments.
unfoldable pub arg_magic : RequestArgument → Text
arg_magic p = magic_to_string p.magic p.arr_type ++ codes ", "

unfoldable pub params_text : List RequestArgument → Text
unfolding arg_magic
params_text args = let str = each arg_magic args in if is_empty str then str else drop_separator str

-- The initialisers of the SMethods.
unfoldable pub c2s_text : MethodSpec → Text
unfolding params_text
c2s_text m =
    format
      (lines (
        "" ∷ "Hyprwire::SMethod{{" ∷ ".idx = {}," ∷ ".params = {{ {} }}," ∷ ".returnsType = \"{}\","
        ∷ ".since = {}," ∷ "}}," ∷ []))
      (decimal m.idx ∷ params_text m.args ∷ m.returns ∷ decimal m.since ∷ [])

unfoldable pub s2c_text : MethodSpec → Text
unfolding params_text
s2c_text m =
    format
      (lines (
        "" ∷ "Hyprwire::SMethod{{" ∷ ".idx = {}," ∷ ".params = {{ {} }}," ∷ ".since = {}," ∷ "}},"
        ∷ []))
      (decimal m.idx ∷ params_text m.args ∷ decimal m.since ∷ [])

-- The last comma of a list of them is taken back.
unfoldable pub methods_text : (MethodSpec → Text) → List MethodSpec → Text
methods_text f ms = if is_empty ms then [] else drop_last (each f ms)

-- The class of an object.
unfoldable pub object_text : ObjectSpec → Text
unfolding methods_text c2s_text s2c_text
object_text o =
    let cls = capitalize o.name_camel in
    format
      (lines (
        "" ∷ "class C{}Spec : public Hyprwire::IProtocolObjectSpec {{" ∷ "  public:"
        ∷ "    C{}Spec() = default;" ∷ "    virtual ~C{}Spec() = default;" ∷ ""
        ∷ "    virtual std::string objectName() {{" ∷ "        return \"{}\";" ∷ "    }}" ∷ ""
        ∷ "        " ∷ []))
      (cls ∷ cls ∷ cls ∷ o.name ∷ [])
    ++ (codes "\n\tstd::vector<Hyprwire::SMethod>                m_c2s = {"
        ++ (methods_text c2s_text o.c2s
            ++ (lines (
                  "" ∷ "    };" ∷ "" ∷ "    virtual const std::vector<Hyprwire::SMethod>& c2s() {"
                  ∷ "        return m_c2s;" ∷ "    }" ∷ "" ∷ [])
                ++ (codes "\n\tstd::vector<Hyprwire::SMethod>                m_s2c = {"
                    ++ (methods_text s2c_text o.s2c
                        ++ lines (
                            "" ∷ "    };" ∷ ""
                            ∷ "    virtual const std::vector<Hyprwire::SMethod>& s2c() {"
                            ∷ "        return m_s2c;" ∷ "    }" ∷ "" ∷ "};" ∷ "" ∷ []))))))

-- An element of `objectVecStr`.
unfoldable pub make_spec_text : ObjectSpec → Text
make_spec_text o =
    format (codes "Hyprutils::Memory::makeShared<C{}Spec>(), ") (capitalize o.name_camel ∷ [])

unfoldable pub protocol_class_text : ProtoData → List ObjectSpec → Text
unfolding make_spec_text
protocol_class_text proto objects =
    let cls = capitalize proto.name in
    format
      (lines (
        "" ∷ "class C{}ProtocolSpec : public Hyprwire::IProtocolSpec {{" ∷ "  public:"
        ∷ "    C{}ProtocolSpec()          = default;" ∷ "    virtual ~C{}ProtocolSpec() = default;"
        ∷ "" ∷ "    virtual std::string specName() {{" ∷ "        return \"{}\";" ∷ "    }}" ∷ ""
        ∷ "    virtual uint32_t specVer() {{" ∷ "        return {};" ∷ "    }}" ∷ ""
        ∷ "    virtual std::vector<Hyprutils::Memory::CSharedPointer<Hyprwire::IProtocolObjectSpec>> objects() {{"
        ∷ "        return {{ {} }};" ∷ "    }}" ∷ "}};" ∷ "" ∷ []))
      (cls
        ∷ cls
        ∷ cls
        ∷ proto.name_original
        ∷ decimal proto.version
        ∷ drop_separator (each make_spec_text objects)
        ∷ [])

-- generateProtocolHeader
unfoldable pub protocol_header : ProtoData → List EnumSpec → List ObjectSpec → Text
unfolding enum_text object_text protocol_class_text
protocol_header proto enums objects =
    lines (
      "" ∷ "#pragma once" ∷ "" ∷ "#include <hyprwire/core/types/MessageMagic.hpp>"
      ∷ "#include <hyprwire/hyprwire.hpp>" ∷ "#include <hyprutils/memory/WeakPtr.hpp>"
      ∷ "#include <vector>" ∷ "    " ∷ [])
    ++ (each enum_text enums ++ (each object_text objects ++ protocol_class_text proto objects))

-- ===== src/Scanner/Client.antt =====
-- generateClientCodeHeader and generateClientCodeSource (scanner/main.cpp): what is written to
-- HEADER_IMPL and SOURCE for a client.
use hyprwire_debian.Base.{Bool, true, false, List, [], ◌∷◌, ◌++◌, if◌then◌else◌}
use hyprwire_debian.WireObject.Spec.{is_empty}
use hyprwire_debian.Wire.Decimal.{decimal}
use hyprwire_debian.Scanner.Text.{Text, codes, lines, each, camelize, capitalize, format}
use hyprwire_debian.Scanner.Types.{Style, args_to_c}
use hyprwire_debian.Scanner.Protocol.{MethodSpec, ObjectSpec, ProtoData}

-- The flags of the calls of argsToC.
abbrev named : Style
named = record {
  no_names = false;
  no_types = false;
  add_sequence = false;
  pure_c = false;
  un_c = false;
}

abbrev unnamed : Style
unnamed = record named { no_names = true }

-- ", " and the arguments, if there are any.
abbrev more_args : Bool → Text → Text
more_args nothing args = if nothing then [] else codes ", " ++ args

-- The declarations of an object's class.
unfoldable pub send_decl : Text → MethodSpec → Text
send_decl proto m = format (lines ("" ∷ "    {} send{}({});" ∷ "            " ∷ [])) (
    (if is_empty m.returns
      then codes "void"
      else codes "Hyprutils::Memory::CSharedPointer<Hyprwire::IObject>")
    ∷ capitalize (camelize m.name)
    ∷ args_to_c proto named m.args
    ∷ [])

unfoldable pub set_decl : Text → MethodSpec → Text
set_decl proto m =
    format (lines ("" ∷ "    void set{}(std::function<void({})>&& fn);" ∷ "            " ∷ []))
      (capitalize (camelize m.name) ∷ args_to_c proto unnamed m.args ∷ [])

unfoldable pub listener_decl : Text → MethodSpec → Text
listener_decl proto m =
    format (lines (" std::function<void({})> {};" ∷ "" ∷ []))
      (args_to_c proto unnamed m.args ∷ m.name ∷ [])

unfoldable pub object_decl : Text → ObjectSpec → Text
unfolding send_decl set_decl listener_decl
object_decl proto o =
    let cls = capitalize o.name_camel in
    format
      (lines (
        "" ∷ "class CC{}Object {{" ∷ "  public:"
        ∷ "    CC{}Object(Hyprutils::Memory::CSharedPointer<Hyprwire::IObject>&& object);"
        ∷ "    ~CC{}Object();" ∷ ""
        ∷ "    Hyprutils::Memory::CSharedPointer<Hyprwire::IObject> getObject() {{"
        ∷ "        return m_object.lock();" ∷ "    }}" ∷ "" ∷ "" ∷ []))
      (cls ∷ cls ∷ cls ∷ [])
    ++ (each (send_decl proto) o.c2s
        ++ (each (set_decl proto) o.s2c
            ++ (codes "\n  private:\n\tstruct {\n"
                ++ (each (listener_decl proto) o.s2c
                    ++ lines (
                        " } m_listeners;" ∷ "        "
                        ∷ "    Hyprutils::Memory::CWeakPointer<Hyprwire::IObject> m_object;" ∷ "};"
                        ∷ "" ∷ [])))))

-- generateClientCodeHeader
unfoldable pub client_header : ProtoData → List ObjectSpec → Text
unfolding object_decl
client_header proto objects =
    let cls = capitalize proto.name in
    format
      (lines (
        "" ∷ "#pragma once" ∷ "" ∷ "#include <functional>" ∷ "#include \"{}-spec.hpp\"" ∷ "    "
        ∷ []))
      (proto.name_original ∷ [])
    ++ (each (object_decl proto.name_original) objects
        ++ format
            (lines (
              "" ∷ "class CC{}Impl : public Hyprwire::IProtocolClientImplementation {{"
              ∷ "  public:" ∷ "    CC{}Impl(uint32_t version);"
              ∷ "    virtual ~CC{}Impl() = default;" ∷ ""
              ∷ "    virtual Hyprutils::Memory::CSharedPointer<Hyprwire::IProtocolSpec> protocol();"
              ∷ ""
              ∷ "    virtual std::vector<Hyprutils::Memory::CSharedPointer<Hyprwire::SClientObjectImplementation>> implementation();"
              ∷ "" ∷ "  private:" ∷ "    uint32_t m_version = 0;" ∷ "}};" ∷ "" ∷ []))
            (cls ∷ cls ∷ cls ∷ []))

-- The function that libffi calls, and its registration.
unfoldable pub listener_text : Text → ObjectSpec → MethodSpec → Text
listener_text proto o m =
    format
      (lines (
        "" ∷ "static void {}_method{}(Hyprwire::IObject* r{}) {{"
        ∷ "    auto& fn = rc<{}*>(r->getData())->m_listeners.{};" ∷ "    if (fn)"
        ∷ "        fn({});" ∷ "}}" ∷ "" ∷ []))
      (o.name_camel
        ∷ decimal m.idx
        ∷ more_args (is_empty m.args) (args_to_c proto (record named { pure_c = true }) m.args)
        ∷ format (codes "CC{}Object") (capitalize o.name_camel ∷ [])
        ∷ m.name
        ∷ args_to_c proto (record named { no_types = true; un_c = true }) m.args
        ∷ [])

unfoldable pub listen_text : ObjectSpec → MethodSpec → Text
listen_text o m =
    format (lines ("" ∷ "    m_object->listen({}, rc<void*>(::{}_method{}));" ∷ []))
      (decimal m.idx ∷ o.name_camel ∷ decimal m.idx ∷ [])

-- The function that calls the method.
unfoldable pub send_text : Text → ObjectSpec → MethodSpec → Text
send_text proto o m =
    let args =
      capitalize o.name_camel
      ∷ capitalize (camelize m.name)
      ∷ args_to_c proto named m.args
      ∷ decimal m.idx
      ∷ more_args (is_empty m.args)
          (args_to_c proto (record named { no_types = true; pure_c = true }) m.args)
      ∷ [] in
    if is_empty m.returns
    then format
        (lines
          ("" ∷ "void CC{}Object::send{}({}) {{" ∷ "    m_object->call({}{});" ∷ "}}" ∷ "" ∷ []))
        args
    else format
        (lines (
          "" ∷ "" ∷ "SP<Hyprwire::IObject> CC{}Object::send{}({}) {{"
          ∷ "    auto _seq = m_object->call({}{});"
          ∷ "    return m_object->clientSock()->objectForSeq(_seq);" ∷ "}}" ∷ "" ∷ []))
        args

unfoldable pub set_text : Text → ObjectSpec → MethodSpec → Text
set_text proto o m =
    format
      (lines (
        "" ∷ "void CC{}Object::set{}(std::function<void({})>&& fn) {{"
        ∷ "    m_listeners.{} = std::move(fn);" ∷ "}}" ∷ "" ∷ []))
      (capitalize o.name_camel
        ∷ capitalize (camelize m.name)
        ∷ args_to_c proto unnamed m.args
        ∷ m.name
        ∷ [])

unfoldable pub object_text : Text → ObjectSpec → Text
unfolding listener_text listen_text send_text set_text
object_text proto o =
    let cls = capitalize o.name_camel in
    each (listener_text proto o) o.s2c
    ++ (format
          (lines (
            ""
            ∷ "CC{}Object::CC{}Object(Hyprutils::Memory::CSharedPointer<Hyprwire::IObject>&& object) : m_object(std::move(object)) {{"
            ∷ "    m_object->setData(this);" ∷ "            " ∷ []))
          (cls ∷ cls ∷ [])
        ++ (each (listen_text o) o.s2c
            ++ (format
                  (lines (
                    "" ∷ "}}" ∷ "" ∷ "CC{}Object::~CC{}Object() {{"
                    ∷ "    ; // TODO: call destructor if present" ∷ "}}" ∷ []))
                  (cls ∷ cls ∷ [])
                ++ (each (send_text proto o) o.c2s ++ each (set_text proto o) o.s2c))))

unfoldable pub implementation_text : ObjectSpec → Text
implementation_text o =
    format
      (lines (
        ""
        ∷ "            makeShared<Hyprwire::SClientObjectImplementation>(Hyprwire::SClientObjectImplementation{{"
        ∷ "                .objectName = \"{}\"," ∷ "                .version    = m_version,"
        ∷ "            }})," ∷ "" ∷ []))
      (o.name ∷ [])

-- generateClientCodeSource
unfoldable pub client_source : ProtoData → List ObjectSpec → Text
unfolding object_text implementation_text
client_source proto objects =
    let cls = capitalize proto.name in
    format
      (lines (
        "" ∷ "#define private public" ∷ "#include \"{}-client.hpp\"" ∷ "#undef private" ∷ ""
        ∷ "using namespace Hyprutils::Memory;" ∷ "#define SP CSharedPointer" ∷ "    " ∷ []))
      (proto.name_original ∷ [])
    ++ (each (object_text proto.name_original) objects
        ++ (format
              (lines (
                "" ∷ "CC{}Impl::CC{}Impl(uint32_t ver) : m_version(ver) {{" ∷ "    ;" ∷ "}}" ∷ ""
                ∷ "static auto {}Spec = makeShared<C{}ProtocolSpec>();" ∷ ""
                ∷ "SP<Hyprwire::IProtocolSpec> CC{}Impl::protocol() {{" ∷ "    return {}Spec;"
                ∷ "}}" ∷ ""
                ∷ "std::vector<SP<Hyprwire::SClientObjectImplementation>> CC{}Impl::implementation() {{"
                ∷ "    return {{" ∷ "" ∷ []))
              (cls ∷ cls ∷ proto.name ∷ cls ∷ cls ∷ proto.name ∷ cls ∷ [])
            ++ (each implementation_text objects ++ codes "};\n}\n")))

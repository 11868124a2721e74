-- ===== src/Scanner/Server.antt =====
-- generateServerCodeHeader and generateServerCodeSource (scanner/main.cpp): what is written to
-- HEADER_IMPL and SOURCE for a server.
use hyprwire_debian.Base.{Bool, true, false, not, ◌&&◌, List, [], ◌∷◌, ◌++◌, if◌then◌else◌}
use hyprwire_debian.WireObject.Spec.{is_empty}
use hyprwire_debian.Wire.Decimal.{decimal}
use hyprwire_debian.Scanner.Text.{Text, codes, lines, each, camelize, capitalize, format}
use hyprwire_debian.Scanner.Types.{Style, args_to_c}
use hyprwire_debian.Scanner.Protocol.{MethodSpec, ObjectSpec, ProtoData}

-- The flags of the calls of argsToC.
abbrev named : Style
named = record {
  no_names = false;
  no_types = false;
  add_sequence = false;
  pure_c = false;
  un_c = false;
}

abbrev unnamed : Style
unnamed = record named { no_names = true }

-- ", " and the arguments, if there are any.
abbrev more_args : Bool → Text → Text
more_args nothing args = if nothing then [] else codes ", " ++ args

-- Whether a method returns an object, whose sequence number is then its first argument.
abbrev with_sequence : MethodSpec → Style → Style
with_sequence m s = record s { add_sequence = not (is_empty m.returns) }

-- The declarations of an object's class.
unfoldable pub send_decl : Text → MethodSpec → Text
send_decl proto m =
    format (lines ("" ∷ "    void send{}({});" ∷ "            " ∷ []))
      (capitalize (camelize m.name) ∷ args_to_c proto named m.args ∷ [])

unfoldable pub set_decl : Text → MethodSpec → Text
set_decl proto m =
    format (lines ("" ∷ "    void set{}(std::function<void({})>&& fn);" ∷ "            " ∷ []))
      (capitalize (camelize m.name) ∷ args_to_c proto (with_sequence m unnamed) m.args ∷ [])

unfoldable pub listener_decl : Text → MethodSpec → Text
listener_decl proto m =
    format (lines (" std::function<void({})> {};" ∷ "" ∷ []))
      (args_to_c proto (with_sequence m unnamed) m.args ∷ m.name ∷ [])

unfoldable pub object_decl : Text → ObjectSpec → Text
unfolding send_decl set_decl listener_decl
object_decl proto o =
    let cls = capitalize o.name_camel in
    format
      (lines (
        "" ∷ "class C{}Object {{" ∷ "  public:"
        ∷ "    C{}Object(Hyprutils::Memory::CSharedPointer<Hyprwire::IObject>&& object);"
        ∷ "    ~C{}Object();" ∷ ""
        ∷ "    Hyprutils::Memory::CSharedPointer<Hyprwire::IObject> getObject() {{"
        ∷ "        return m_object.lock();" ∷ "    }}" ∷ ""
        ∷ "    void setOnDestroy(std::function<void()>&& fn) {{"
        ∷ "        m_object->setOnDestroy(std::move(fn));" ∷ "    }}" ∷ ""
        ∷ "    void error(uint32_t code, const std::string_view& sv) {{"
        ∷ "        m_object->error(code, sv);" ∷ "    }}" ∷ "" ∷ "    static const char* name() {{"
        ∷ "        return \"{}\";" ∷ "    }}" ∷ "" ∷ []))
      (cls ∷ cls ∷ cls ∷ o.name ∷ [])
    ++ (each (send_decl proto) o.s2c
        ++ (each (set_decl proto) o.c2s
            ++ (codes "\n  private:\n\tstruct {\n"
                ++ (each (listener_decl proto) o.c2s
                    ++ lines (
                        " } m_listeners;" ∷ "        "
                        ∷ "    Hyprutils::Memory::CWeakPointer<Hyprwire::IObject> m_object;" ∷ "};"
                        ∷ "" ∷ [])))))

-- generateServerCodeHeader
unfoldable pub server_header : ProtoData → List ObjectSpec → Text
unfolding object_decl
server_header proto objects =
    let cls = capitalize proto.name in
    format
      (lines (
        "" ∷ "#pragma once" ∷ "" ∷ "#include <functional>" ∷ "#include \"{}-spec.hpp\"" ∷ "    "
        ∷ []))
      (proto.name_original ∷ [])
    ++ (each (object_decl proto.name_original) objects
        ++ format
            (lines (
              "" ∷ "class C{}Impl : public Hyprwire::IProtocolServerImplementation {{" ∷ "  public:"
              ∷ "    C{}Impl(uint32_t version, std::function<void(Hyprutils::Memory::CSharedPointer<Hyprwire::IObject>)>&& bindFn);"
              ∷ "    virtual ~C{}Impl() = default;" ∷ ""
              ∷ "    virtual Hyprutils::Memory::CSharedPointer<Hyprwire::IProtocolSpec> protocol();"
              ∷ ""
              ∷ "    virtual std::vector<Hyprutils::Memory::CSharedPointer<Hyprwire::SServerObjectImplementation>> implementation();"
              ∷ "" ∷ "  private:" ∷ "    uint32_t m_version = 0;"
              ∷ "    std::function<void(Hyprutils::Memory::CSharedPointer<Hyprwire::IObject>)> m_bindFn;"
              ∷ "}};" ∷ "" ∷ []))
            (cls ∷ cls ∷ cls ∷ []))

-- The function that libffi calls, and its registration.
unfoldable pub listener_text : Text → ObjectSpec → MethodSpec → Text
listener_text proto o m =
    format
      (lines (
        "" ∷ "static void {}_method{}(Hyprwire::IObject* r{}) {{"
        ∷ "    auto& fn = rc<{}*>(r->getData())->m_listeners.{};" ∷ "    if (fn)"
        ∷ "        fn({});" ∷ "}}" ∷ "" ∷ []))
      (o.name_camel
        ∷ decimal m.idx
        ∷ more_args (is_empty m.args && is_empty m.returns)
            (args_to_c proto (with_sequence m (record named { pure_c = true })) m.args)
        ∷ format (codes "C{}Object") (capitalize o.name_camel ∷ [])
        ∷ m.name
        ∷ args_to_c proto (with_sequence m (record named { no_types = true; un_c = true })) m.args
        ∷ [])

unfoldable pub listen_text : ObjectSpec → MethodSpec → Text
listen_text o m =
    format (lines ("" ∷ "    m_object->listen({}, rc<void*>(::{}_method{}));" ∷ []))
      (decimal m.idx ∷ o.name_camel ∷ decimal m.idx ∷ [])

-- The function that calls the method.
unfoldable pub send_text : Text → ObjectSpec → MethodSpec → Text
send_text proto o m =
    format
      (lines ("" ∷ "void C{}Object::send{}({}) {{" ∷ "    m_object->call({}{});" ∷ "}}" ∷ "" ∷ []))
      (capitalize o.name_camel
        ∷ capitalize (camelize m.name)
        ∷ args_to_c proto named m.args
        ∷ decimal m.idx
        ∷ more_args (is_empty m.args)
            (args_to_c proto (record named { no_types = true; pure_c = true }) m.args)
        ∷ [])

unfoldable pub set_text : Text → ObjectSpec → MethodSpec → Text
set_text proto o m =
    format
      (lines (
        "" ∷ "void C{}Object::set{}(std::function<void({})>&& fn) {{"
        ∷ "    m_listeners.{} = std::move(fn);" ∷ "}}" ∷ "" ∷ []))
      (capitalize o.name_camel
        ∷ capitalize (camelize m.name)
        ∷ args_to_c proto (with_sequence m unnamed) m.args
        ∷ m.name
        ∷ [])

unfoldable pub object_text : Text → ObjectSpec → Text
unfolding listener_text listen_text send_text set_text
object_text proto o =
    let cls = capitalize o.name_camel in
    each (listener_text proto o) o.c2s
    ++ (format
          (lines (
            ""
            ∷ "C{}Object::C{}Object(Hyprutils::Memory::CSharedPointer<Hyprwire::IObject>&& object) : m_object(std::move(object)) {{"
            ∷ "    m_object->setData(this);" ∷ "            " ∷ []))
          (cls ∷ cls ∷ [])
        ++ (each (listen_text o) o.c2s
            ++ (format
                  (lines (
                    "" ∷ "}}" ∷ "" ∷ "C{}Object::~C{}Object() {{"
                    ∷ "    ; // TODO: call destructor if present" ∷ "}}" ∷ []))
                  (cls ∷ cls ∷ [])
                ++ (each (send_text proto o) o.s2c ++ each (set_text proto o) o.c2s))))

-- The first object's implementation binds.
unfoldable pub first_text : ObjectSpec → Text
first_text o =
    format
      (lines (
        ""
        ∷ "            makeShared<Hyprwire::SServerObjectImplementation>(Hyprwire::SServerObjectImplementation{{"
        ∷ "                .objectName = \"{}\"," ∷ "                .version    = m_version,"
        ∷ "                .onBind = [this] (Hyprutils::Memory::CSharedPointer<Hyprwire::IObject> r) {{ if (m_bindFn) m_bindFn(r); }}"
        ∷ "            }})," ∷ "" ∷ []))
      (o.name ∷ [])

unfoldable pub later_text : ObjectSpec → Text
later_text o =
    format
      (lines (
        ""
        ∷ "            makeShared<Hyprwire::SServerObjectImplementation>(Hyprwire::SServerObjectImplementation{{"
        ∷ "                .objectName = \"{}\"," ∷ "                .version    = m_version,"
        ∷ "            }})," ∷ "" ∷ []))
      (o.name ∷ [])

unfoldable pub implementations_text : List ObjectSpec → Text
unfolding first_text later_text
implementations_text [] = []
implementations_text (o ∷ os) = first_text o ++ each later_text os

-- generateServerCodeSource. The last of the eight arguments has no field.
unfoldable pub server_source : ProtoData → List ObjectSpec → Text
unfolding object_text implementations_text
server_source proto objects =
    let cls = capitalize proto.name in
    format
      (lines (
        "" ∷ "#define private public" ∷ "#include \"{}-server.hpp\"" ∷ "#undef private" ∷ ""
        ∷ "using namespace Hyprutils::Memory;" ∷ "#define SP CSharedPointer" ∷ "    " ∷ []))
      (proto.name_original ∷ [])
    ++ (each (object_text proto.name_original) objects
        ++ (format
              (lines (
                ""
                ∷ "C{}Impl::C{}Impl(uint32_t ver, std::function<void(Hyprutils::Memory::CSharedPointer<Hyprwire::IObject>)>&& bindFn) : m_version(ver), m_bindFn(bindFn) {{"
                ∷ "    ;" ∷ "}}" ∷ "" ∷ "static auto {}Spec = makeShared<C{}ProtocolSpec>();" ∷ ""
                ∷ "SP<Hyprwire::IProtocolSpec> C{}Impl::protocol() {{" ∷ "    return {}Spec;" ∷ "}}"
                ∷ ""
                ∷ "std::vector<SP<Hyprwire::SServerObjectImplementation>> C{}Impl::implementation() {{"
                ∷ "    return {{" ∷ "" ∷ []))
              (cls ∷ cls ∷ proto.name ∷ cls ∷ cls ∷ proto.name ∷ cls ∷ cls ∷ [])
            ++ (implementations_text objects ++ codes "};\n}\n")))

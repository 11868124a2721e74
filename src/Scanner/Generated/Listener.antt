-- ===== src/Scanner/Generated/Listener.antt =====
-- The function that libffi calls, as scanner/main.cpp writes it for a server and for a client, and
-- the header's SMethod of the same method.
use mathlib.Core.List.{append_assoc}
use hyprwire_debian.Base.{
  ℕ, Bool, true, false, not, ◌&&◌, ◌≡◌, refl, sym, ◌∙◌, List, [], ◌∷◌, ◌++◌, map, if◌then◌else◌,
  arith, Bool-cases, inl, inr,
}
use hyprwire_debian.Wire.Decimal.{decimal}
use hyprwire_debian.WireObject.Spec.{is_empty}
use hyprwire_debian.Scanner.Text.{Text, codes, lines, format, capitalize}
use hyprwire_debian.Scanner.Types.{RequestArgument, Style, args_to_c}
use hyprwire_debian.Scanner.Protocol.{Xml, MethodSpec, ObjectSpec, scan_method}
use hyprwire_debian.Scanner.Header.{params_text}
use hyprwire_debian.Scanner.Client
use hyprwire_debian.Scanner.Server
use hyprwire_debian.Scanner.Generated.{
  ArgType, one, array_of, HasType, Typed, NamesTypes, method_of, CType, declaration, arg_params,
  args_params, listener_params, comma_join, code_name,
}
use hyprwire_debian.Scanner.Generated.Texts.{
  pure, args_to_c-declarations, params_text-names, arg_params-scalar, arg_params-array,
}
use hyprwire_debian.Scanner.Generated.Types.{scan_method-Typed}

-- The function that is written for a method: of a client's methods at the server, and of a server's
-- at the client.
abbrev pub listener_text : Bool → Text → ObjectSpec → MethodSpec → Text
listener_text true = Server.listener_text
listener_text false = Client.listener_text

-- A C++ function of these parameters behind the object.
abbrev pub listener_head : ObjectSpec → MethodSpec → List (CType × Text) → Text
listener_head o m ps =
    codes "\nstatic void "
    ++ (o.name_camel
        ++ (codes "_method"
            ++ (decimal m.idx
                ++ (codes "("
                    ++ (comma_join (codes "Hyprwire::IObject* r" ∷ map declaration ps)
                        ++ codes ") {\n")))))

-- The text is one of a function of these parameters.
abbrev pub Declares : Text → ObjectSpec → MethodSpec → List (CType × Text) → Type 0
Declares text o m ps = (body : Text) × (text ≡ listener_head o m ps ++ body)

-- ", " and the parameters, if there are any.
abbrev more_params : Bool → Text → Text
more_params nothing args = if nothing then [] else codes ", " ++ args

more_params-declarations :
    (ps : List (CType × Text))
    → codes "Hyprwire::IObject* r" ++ more_params (is_empty ps) (comma_join (map declaration ps))
      ≡ comma_join (codes "Hyprwire::IObject* r" ∷ map declaration ps)
unfolding comma_join
more_params-declarations [] = refl
more_params-declarations (p ∷ ps) = refl

regroup :
    (s n k d l h more p z body : Text)
    → h ++ more ≡ p
    → s ++ (n ++ (k ++ (d ++ (l ++ (h ++ (more ++ (z ++ body)))))))
      ≡ (s ++ (n ++ (k ++ (d ++ (l ++ (p ++ z)))))) ++ body
regroup s n k d l h more p z body e = rw (sym e) (simp (append_assoc) refl)

-- The parameters are none exactly if there are no arguments.
arg_params-is_empty :
    (proto : Text) (a : RequestArgument) (t : ArgType) (ps : List (CType × Text))
    → HasType a t
    → is_empty (arg_params proto a ++ ps) ≡ false
arg_params-is_empty proto a (one b) ps h = rw (arg_params-scalar proto a b h.0) refl
arg_params-is_empty proto a (array_of b) ps h = rw (arg_params-array proto a b h) refl

args_params-is_empty :
    (proto : Text) (args : List RequestArgument)
    → Typed args
    → is_empty (args_params proto args) ≡ is_empty args
unfolding args_params
args_params-is_empty proto [] h = refl
args_params-is_empty proto (a ∷ as_) h =
    arg_params-is_empty proto a h.0.0 (args_params proto as_) h.0.1

server-is_empty :
    (proto : Text) (m : MethodSpec)
    → Typed m.args
    → (is_empty m.args && is_empty m.returns) ≡ is_empty (listener_params proto true m)
unfolding listener_params method_of
server-is_empty proto m h = elim (Bool-cases (is_empty m.returns)) [
  | inl e ↦ rw (e, args_params-is_empty proto m.args h) (ground arith)
  | inr e ↦ rw e (ground arith)
]

-- The rest of the function: it calls the listener that was set, if there is one.
abbrev listener_body : Text → ObjectSpec → MethodSpec → Text → Text
listener_body cls o m args =
    format
      (lines (
        "    auto& fn = rc<{}*>(r->getData())->m_listeners.{};" ∷ "    if (fn)" ∷ "        fn({});"
        ∷ "}}" ∷ "" ∷ []))
      (cls ∷ m.name ∷ args ∷ [])

abbrev names_only : Bool → Style
names_only add_sequence = record {
  no_names = false;
  no_types = true;
  add_sequence = add_sequence;
  pure_c = false;
  un_c = true;
}

-- What format makes of the function's text.
abbrev function_text : ObjectSpec → MethodSpec → Text → Text → Text
function_text o m more body =
    codes "\nstatic void "
    ++ (o.name_camel
        ++ (codes "_method"
            ++ (decimal m.idx
                ++ (codes "("
                    ++ (codes "Hyprwire::IObject* r" ++ (more ++ (codes ") {\n" ++ body)))))))

server-function_text :
    (proto : Text) (o : ObjectSpec) (m : MethodSpec)
    → Server.listener_text proto o m
      ≡ function_text o m
          (more_params
            (is_empty m.args && is_empty m.returns)
            (args_to_c proto (pure (not (is_empty m.returns))) m.args))
          (listener_body
            (format (codes "C{}Object") (capitalize o.name_camel ∷ []))
            o
            m
            (args_to_c proto (names_only (not (is_empty m.returns))) m.args))
unfolding Server.listener_text format
server-function_text proto o m = refl

client-function_text :
    (proto : Text) (o : ObjectSpec) (m : MethodSpec)
    → Client.listener_text proto o m
      ≡ function_text o m (more_params (is_empty m.args) (args_to_c proto (pure false) m.args)) (
          listener_body
            (format (codes "CC{}Object") (capitalize o.name_camel ∷ []))
            o
            m
            (args_to_c proto (names_only false) m.args))
unfolding Client.listener_text format
client-function_text proto o m = refl

function_text-head :
    (o : ObjectSpec) (m : MethodSpec) (nothing : Bool) (more body : Text) (ps : List (CType × Text))
    → nothing ≡ is_empty ps
    → more ≡ comma_join (map declaration ps)
    → function_text o m (more_params nothing more) body ≡ listener_head o m ps ++ body
function_text-head o m nothing more body ps e k =
    regroup (codes "\nstatic void ") o.name_camel (codes "_method") (decimal m.idx) (codes "(")
      (codes "Hyprwire::IObject* r") (more_params nothing more)
      (comma_join (codes "Hyprwire::IObject* r" ∷ map declaration ps)) (codes ") {\n") body
      (rw (e, k) (more_params-declarations ps))

listener_text-Declares :
    (from_client : Bool) (proto : Text) (o : ObjectSpec) (m : MethodSpec)
    → Typed m.args
    → Declares (listener_text from_client proto o m) o m (listener_params proto from_client m)
unfolding listener_params method_of
listener_text-Declares true proto o m h = (
  listener_body (format (codes "C{}Object") (capitalize o.name_camel ∷ [])) o m
      (args_to_c proto (names_only (not (is_empty m.returns))) m.args),
  server-function_text proto o m
      ∙ function_text-head o m _ _ _ (listener_params proto true m) (server-is_empty proto m h)
          (args_to_c-declarations proto true m h),
)
listener_text-Declares false proto o m h = (
  listener_body (format (codes "CC{}Object") (capitalize o.name_camel ∷ [])) o m
      (args_to_c proto (names_only false) m.args),
  client-function_text proto o m
      ∙ function_text-head o m _ _ _ (listener_params proto false m)
          (sym (args_params-is_empty proto m.args h)) (args_to_c-declarations proto false m h),
)

module _ (xml : Xml) (from_client : Bool) (node : xml.Node) (idx : ℕ) where
  open xml use {children}

  -- Let every argument of a method of the specification have a type that the scanner knows. Then
  -- the text of the parameters in the header is the list, with commas between, of the C++ names of
  -- the codes of the SMethod's parameters, and the function that is written for libffi to call, at
  -- the server for a client's method and at the client for a server's, has the method's number in
  -- its name and, behind the object, the declarations that the method's arguments ask for: a
  -- pointer and a size for an array, and first the sequence number of a client's method that
  -- returns an object.
  pub generated_texts :
      (proto : Text) (o : ObjectSpec)
      → NamesTypes xml (children node)
      → (params_text (scan_method xml from_client node idx).args
          ≡ comma_join
              (map code_name (method_of from_client (scan_method xml from_client node idx)).params))
        × Declares
            (listener_text from_client proto o (scan_method xml from_client node idx))
            o
            (scan_method xml from_client node idx)
            (listener_params proto from_client (scan_method xml from_client node idx))
  unfolding method_of
  generated_texts proto o h =
      let m = scan_method xml from_client node idx in
      let typed = scan_method-Typed xml from_client node idx h in
      (params_text-names m.args typed, listener_text-Declares from_client proto o m typed)

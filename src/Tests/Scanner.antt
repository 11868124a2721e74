-- ===== src/Tests/Scanner.antt =====
-- The scanner on a small specification.
use hyprwire_debian.Base.{
  ℕ, true, false, ◌≡◌, ◌⊎◌, refl, inl, inr, some, List, [], ◌∷◌, if◌then◌else◌, map, sub64,
}
use mathlib.Core.Bool.{false≢true}
use hyprwire_debian.Message.Hello.{bytes_eq}
use hyprwire_debian.WireObject.Demarshal.{Span}
use hyprwire_debian.WireObject.Spec.{get_elem?}
use hyprwire_debian.Scanner.Text.{Text, codes, camelize}
use hyprwire_debian.Scanner.Types.{args_to_c, str_to_magic}
use hyprwire_debian.Scanner.Protocol.{Xml, scan_method, scan_methods, scan_object}
use hyprwire_debian.Scanner.Header.{params_text}
use hyprwire_debian.Scanner.Main.{file_stem}
use hyprwire_debian.Scanner.Generated.{
  one, array_of, varchar, uint, enum, NamesTypes, method_of, listener_params, comma_join, code_name,
}
use hyprwire_debian.Scanner.Generated.Texts.{pure}
use hyprwire_debian.Scanner.Generated.Listener.{listener_text, Declares, generated_texts}
use hyprwire_debian.Scanner.Naming.{IsWord}
use hyprwire_debian.Scanner.Numbering.{scan_object-idx}

-- <protocol name="my_proto" version="1"><object name="obj" version="1"><s2c .../><c2s name="do_it">
-- <arg name="text" type="varchar"/><arg name="mode" type="enum" interface="mode"/>
-- <arg name="nums" type="array uint"/><returns iface="obj"/></c2s></object></protocol>
data Sample : Type 0 where
  document protocol object event method text_arg mode_arg nums_arg returned missing : Sample

abbrev sample_name : Sample → Text
sample_name document = []
sample_name protocol = codes "protocol"
sample_name object = codes "object"
sample_name event = codes "s2c"
sample_name method = codes "c2s"
sample_name text_arg = codes "arg"
sample_name mode_arg = codes "arg"
sample_name nums_arg = codes "arg"
sample_name returned = codes "returns"
sample_name missing = []

abbrev sample_children : Sample → List Sample
sample_children document = protocol ∷ []
sample_children protocol = object ∷ []
sample_children object = event ∷ method ∷ []
sample_children method = text_arg ∷ mode_arg ∷ nums_arg ∷ returned ∷ []
sample_children _ = []

abbrev sample_child : Sample → Text → Sample
sample_child document n = protocol
sample_child s n = missing

-- The types, and the names.
abbrev sample_type : Sample → Text
sample_type text_arg = codes "varchar"
sample_type mode_arg = codes "enum"
sample_type nums_arg = codes "array uint"
sample_type s = []

abbrev sample_label : Sample → Text
sample_label protocol = codes "my_proto"
sample_label object = codes "obj"
sample_label method = codes "do_it"
sample_label text_arg = codes "text"
sample_label mode_arg = codes "mode"
sample_label nums_arg = codes "nums"
sample_label s = []

abbrev sample_string : Sample → Text → Text
sample_string s a =
    if bytes_eq a (codes "type")
    then sample_type s
    else if bytes_eq a (codes "name")
    then sample_label s
    else if bytes_eq a (codes "interface")
    then codes "mode"
    else if bytes_eq a (codes "iface")
    then codes "obj"
    else []

abbrev sample : Xml
sample = record {
  Node = Sample;
  name = sample_name;
  children = sample_children;
  child = sample_child;
  child_value = λ s. codes "me";
  as_string = sample_string;
  as_int = λ s a d. 1;
  as_bool = λ s a. false;
}

method-NamesTypes : NamesTypes sample (sample_children method)
unfolding bytes_eq
method-NamesTypes = (
  λ e. (one varchar, refl),
  (λ e. (one enum, refl), (λ e. (array_of uint, refl), (λ e. absurd (false≢true e), tt))),
)

abbrev load_sample : Text → Sample ⊎ Text
load_sample path = inl document

abbrev arguments : List Text
arguments = codes "p/my_proto.xml" ∷ codes "--client" ∷ codes "out" ∷ []

-- The bytes of a call of the method: SEQ, the text "hi", a mode, an array of one number.
abbrev call_bytes : List ℕ
call_bytes =
    19 ∷ 1 ∷ 0 ∷ 0 ∷ 0 ∷ 32 ∷ 2 ∷ 104 ∷ 105 ∷ 16 ∷ 1 ∷ 0 ∷ 0 ∷ 0 ∷ 33 ∷ 16 ∷ 1 ∷ 5 ∷ 0 ∷ 0 ∷ 0 ∷ []

abbrev call_span : Span
call_span = record { mem = call_bytes; size = 21 }

generated_texts_example :
    (params_text (scan_method sample true method 0).args
      ≡ comma_join (map code_name (method_of true (scan_method sample true method 0)).params))
    × Declares
        (listener_text true
          (codes "my_proto")
          (scan_object sample object)
          (scan_method sample true method 0))
        (scan_object sample object)
        (scan_method sample true method 0)
        (listener_params (codes "my_proto") true (scan_method sample true method 0))
generated_texts_example =
    generated_texts sample true method 0 (codes "my_proto") (scan_object sample object)
      method-NamesTypes

-- The parameters of the function that libffi calls.
listener_declarations :
    args_to_c (codes "my_proto") (pure true) (scan_method sample true method 0).args
    ≡ codes "uint32_t seq, const char* text, myProtoMode mode, uint32_t* nums, uint32_t nums_len"
unfolding args_to_c scan_method bytes_eq str_to_magic camelize
listener_declarations = refl

set-IsWord : IsWord (codes "set")
set-IsWord = (refl, (refl, (refl, tt)))

window-IsWord : IsWord (codes "window")
window-IsWord = (refl, (refl, (refl, (refl, (refl, (refl, tt))))))

title-IsWord : IsWord (codes "title")
title-IsWord = (refl, (refl, (refl, (refl, (refl, tt)))))

found : get_elem? (scan_object sample object).c2s 0 ≡ some (scan_method sample true method 0)
unfolding scan_object scan_methods bytes_eq
found = refl

scan_object-idx_example : (scan_method sample true method 0).idx ≡ 0
scan_object-idx_example =
    scan_object-idx sample object 0 (scan_method sample true method 0) (inr found)

file_stem_of_path : file_stem (codes "p/my_proto.xml") ≡ codes "my_proto"
unfolding file_stem sub64
file_stem_of_path = refl

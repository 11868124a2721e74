-- ===== src/Scanner/Arguments.antt =====
-- The arguments of the scanner (main of scanner/main.cpp) against their description: which are
-- flags, and which are paths.
use hyprwire_debian.Base.{
  Bool, true, false, ◌||◌, ◌∙◌, sym, ◌≡◌, refl, ap, ◌⊎◌, inl, inr, List, [], ◌∷◌, if◌then◌else◌,
  All, Bool-cases,
}
use hyprwire_debian.Scanner.Text.{Text}
use hyprwire_debian.Scanner.Protocol.{Xml}
use hyprwire_debian.Scanner.Main.{
  Command, too_many, generate, Paths, no_path, proto_path, both_paths, is_version, is_client,
  read_args, run_command, main,
}

-- The arguments that are not the client's flag, in order, and whether one is.
unfoldable pub paths_of : List Text → List Text
paths_of [] = []
paths_of (a ∷ as_) = let rest = paths_of as_ in if is_client a then rest else a ∷ rest

unfoldable pub wants_client : List Text → Bool
wants_client [] = false
wants_client (a ∷ as_) = if is_client a then true else wants_client as_

abbrev pub NoVersion : List Text → Type 0
NoVersion args = All (λ a. is_version a ≡ false) args

-- What the paths ask for, behind those that were met before.
abbrev pub asked : Bool → Paths → List Text → Command
asked client no_path [] = generate client [] []
asked client (proto_path p) [] = generate client p []
asked client (both_paths p o) [] = generate client p o
asked client no_path (p ∷ []) = generate client p []
asked client no_path (p ∷ o ∷ []) = generate client p o
asked client no_path (p ∷ o ∷ x ∷ xs) = too_many x
asked client (proto_path p) (o ∷ []) = generate client p o
asked client (proto_path p) (o ∷ x ∷ xs) = too_many x
asked client (both_paths p o) (x ∷ xs) = too_many x

-- One argument.
read_args-flag :
    (client : Bool) (paths : Paths) (a : Text) (as_ : List Text)
    → is_version a ≡ false
    → is_client a ≡ true
    → read_args client paths (a ∷ as_) ≡ read_args true paths as_
unfolding read_args
read_args-flag client no_path a as_ h k = rw (h, k, read_args) refl
read_args-flag client (proto_path p) a as_ h k = rw (h, k, read_args) refl
read_args-flag client (both_paths p o) a as_ h k = rw (h, k, read_args) refl

abbrev pub further : Bool → Paths → Text → List Text → Command
further client no_path a as_ = read_args client (proto_path a) as_
further client (proto_path p) a as_ = read_args client (both_paths p a) as_
further client (both_paths p o) a as_ = too_many a

read_args-further :
    (client : Bool) (paths : Paths) (a : Text) (as_ : List Text)
    → is_version a ≡ false
    → is_client a ≡ false
    → read_args client paths (a ∷ as_) ≡ further client paths a as_
unfolding read_args
read_args-further client no_path a as_ h k = rw (h, k, read_args) refl
read_args-further client (proto_path p) a as_ h k = rw (h, k, read_args) refl
read_args-further client (both_paths p o) a as_ h k = rw (h, k, read_args) refl

abbrev pub asked_on : Bool → Paths → Text → List Text → Command
asked_on client no_path a ps = asked client (proto_path a) ps
asked_on client (proto_path p) a ps = asked client (both_paths p a) ps
asked_on client (both_paths p o) a ps = too_many a

asked-further :
    (client : Bool) (paths : Paths) (a : Text) (ps : List Text)
    → asked client paths (a ∷ ps) ≡ asked_on client paths a ps
asked-further client no_path a [] = refl
asked-further client no_path a (b ∷ []) = refl
asked-further client no_path a (b ∷ c ∷ cs) = refl
asked-further client (proto_path p) a [] = refl
asked-further client (proto_path p) a (c ∷ cs) = refl
asked-further client (both_paths p o) a ps = refl

or_true : (b : Bool) → (b || true) ≡ true
or_true true = refl
or_true false = refl

or_false : (b : Bool) → (b || false) ≡ b
or_false true = refl
or_false false = refl

flag-asked :
    (client : Bool) (paths : Paths) (a : Text) (as_ : List Text)
    → is_version a ≡ false
    → is_client a ≡ true
    → read_args true paths as_ ≡ asked true paths (paths_of as_)
    → read_args client paths (a ∷ as_)
      ≡ asked (client || wants_client (a ∷ as_)) paths (paths_of (a ∷ as_))
unfolding paths_of wants_client
flag-asked client paths a as_ h e rest =
    read_args-flag client paths a as_ h e ∙ rest ∙ rw (e, or_true client) refl

further-asked :
    (client : Bool) (paths : Paths) (a : Text) (as_ : List Text)
    → is_version a ≡ false
    → is_client a ≡ false
    → further client paths a as_ ≡ asked_on (client || wants_client as_) paths a (paths_of as_)
    → read_args client paths (a ∷ as_)
      ≡ asked (client || wants_client (a ∷ as_)) paths (paths_of (a ∷ as_))
unfolding paths_of wants_client
further-asked client paths a as_ h e rest =
    read_args-further client paths a as_ h e
    ∙ rest
    ∙ rw e (sym (asked-further (client || wants_client as_) paths a (paths_of as_)))

read_args-asked :
    (client : Bool) (paths : Paths) (args : List Text)
    → NoVersion args
    → read_args client paths args ≡ asked (client || wants_client args) paths (paths_of args)
unfolding read_args paths_of wants_client
read_args-asked client no_path [] h = rw (or_false client) refl
read_args-asked client (proto_path p) [] h = rw (or_false client) refl
read_args-asked client (both_paths p o) [] h = rw (or_false client) refl
read_args-asked client no_path (a ∷ as_) h = elim (Bool-cases (is_client a)) [
  | inl e ↦ flag-asked client no_path a as_ h.0 e (read_args-asked true no_path as_ h.1)
  | inr e ↦ further-asked client no_path a as_ h.0 e (read_args-asked client (proto_path a) as_ h.1)
]
read_args-asked client (proto_path p) (a ∷ as_) h = elim (Bool-cases (is_client a)) [
  | inl e ↦
      flag-asked client (proto_path p) a as_ h.0 e (read_args-asked true (proto_path p) as_ h.1)
  | inr e ↦
      further-asked client (proto_path p) a as_ h.0 e
        (read_args-asked client (both_paths p a) as_ h.1)
]
read_args-asked client (both_paths p o) (a ∷ as_) h = elim (Bool-cases (is_client a)) [
  | inl e ↦
      flag-asked client (both_paths p o) a as_ h.0 e (read_args-asked true (both_paths p o) as_ h.1)
  | inr e ↦ further-asked client (both_paths p o) a as_ h.0 e refl
]

module _ (xml : Xml) (load : Text → xml.Node ⊎ Text) (scanner_version : Text) where
  -- Without an argument that asks for the version, the scanner does what its paths ask for,
  -- wherever the client's flags stand between them: none or one is too few, two are the
  -- specification and the directory, a third is refused.
  pub main-asked :
      (args : List Text)
      → NoVersion args
      → main xml load scanner_version args
        ≡ run_command xml load scanner_version (asked (wants_client args) no_path (paths_of args))
  unfolding main
  main-asked args h =
      ap (run_command xml load scanner_version) (read_args-asked false no_path args h)

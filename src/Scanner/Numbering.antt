-- ===== src/Scanner/Numbering.antt =====
-- The numbers that scanProtocol (scanner/main.cpp) gives to the methods of an object.
use hyprwire_debian.Base.{
  ℕ, zero, suc, ◌+◌, ◌%◌, ◌^◌, Bool, true, false, ◌≡◌, refl, ap, inl, inr, Option, none, some, List,
  [], ◌∷◌, arith, Bool-cases, ◌⊎◌,
}
use hyprwire_debian.Message.Hello.{bytes_eq}
use hyprwire_debian.WireObject.Spec.{get_elem?}
use hyprwire_debian.Scanner.Text.{Text, codes}
use hyprwire_debian.Scanner.Protocol.{Xml, MethodSpec, scan_method, scan_methods, scan_object}

module _ (xml : Xml) (from_client : Bool) (direction : Text) where
  open xml use {Node}

  scan_methods-named :
      (node : Node) (nodes : List Node) (idx : ℕ)
      → bytes_eq (xml.name node) direction ≡ true
      → scan_methods xml from_client direction (node ∷ nodes) idx
        ≡ scan_method xml from_client node idx
          ∷ scan_methods xml from_client direction nodes ((idx + 1) % 2 ^ 32)
  unfolding scan_methods
  scan_methods-named node nodes idx h = rw (h, scan_methods) refl

  scan_methods-other :
      (node : Node) (nodes : List Node) (idx : ℕ)
      → bytes_eq (xml.name node) direction ≡ false
      → scan_methods xml from_client direction (node ∷ nodes) idx
        ≡ scan_methods xml from_client direction nodes idx
  unfolding scan_methods
  scan_methods-other node nodes idx h = rw (h, scan_methods) refl

  scan_method-idx : (node : Node) (idx : ℕ) → (scan_method xml from_client node idx).idx ≡ idx
  unfolding scan_method
  scan_method-idx node idx = refl

  abbrev idx_or : ℕ → Option MethodSpec → ℕ
  idx_or d none = d
  idx_or d (some m) = m.idx

  idx-from :
      (nodes : List Node) (start i : ℕ) (m : MethodSpec)
      → get_elem? (scan_methods xml from_client direction nodes (start % 2 ^ 32)) i ≡ some m
      → m.idx ≡ (start + i) % 2 ^ 32
  unfolding scan_methods
  idx-from [] start i m e = ground (arith, e)
  idx-from (node ∷ nodes) start zero m e = elim (Bool-cases (bytes_eq (xml.name node) direction)) [
    | inl t ↦
        let found = rw (scan_methods-named node nodes (start % 2 ^ 32) t) at e in
        omega (arith, ap (idx_or 0) found, scan_method-idx node (start % 2 ^ 32))
    | inr f ↦
        idx-from nodes start zero m (rw (scan_methods-other node nodes (start % 2 ^ 32) f) at e)
  ]
  idx-from (node ∷ nodes) start (suc i) m e =
      elim (Bool-cases (bytes_eq (xml.name node) direction)) [
        | inl t ↦
            let next : (start % 2 ^ 32 + 1) % 2 ^ 32 ≡ suc start % 2 ^ 32 = omega arith in
            omega (
              arith,
              idx-from nodes (suc start) i m
                  (rw (scan_methods-named node nodes (start % 2 ^ 32) t, next) at e),
            )
        | inr f ↦
            idx-from nodes start (suc i) m
              (rw (scan_methods-other node nodes (start % 2 ^ 32) f) at e)
      ]

  scan_methods-idx :
      (nodes : List Node) (i : ℕ) (m : MethodSpec)
      → get_elem? (scan_methods xml from_client direction nodes 0) i ≡ some m
      → m.idx ≡ i % 2 ^ 32
  scan_methods-idx nodes i m e = omega (arith, idx-from nodes 0 i m e)

-- In an object that scanProtocol reads, the method at place i of a direction, s2c or c2s, has the
-- number i, modulo 2^32, whatever stands between the methods in the specification.
pub scan_object-idx :
    (xml : Xml) (node : xml.Node) (i : ℕ) (m : MethodSpec)
    → (get_elem? (scan_object xml node).s2c i ≡ some m)
      ⊎ (get_elem? (scan_object xml node).c2s i ≡ some m)
    → m.idx ≡ i % 2 ^ 32
unfolding scan_object
scan_object-idx xml node i m (inl e) =
    scan_methods-idx xml false (codes "s2c") (xml.children node) i m e
scan_object-idx xml node i m (inr e) =
    scan_methods-idx xml true (codes "c2s") (xml.children node) i m e

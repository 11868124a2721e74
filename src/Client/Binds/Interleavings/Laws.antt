-- ===== src/Client/Binds/Interleavings/Laws.antt =====
-- What each side does to the objects keeps them in agreement.
use hyprwire_debian.Base.{
  ℕ, zero, suc, ◌≡◌, arith, Bool-cases, inl, inr, some, List, [], ◌∷◌, ◌++◌, All, ◌==◌, ◌∙◌,
}
use hyprwire_debian.WireObject.Spec.{WireObject, get_elem?}
use hyprwire_debian.Client.State.{ClientSocket, object_for_seq, set_id}
use hyprwire_debian.Client.Operations.{on_seq}
use hyprwire_debian.Client.Sequences.{object_for_seq-on_seq}
use hyprwire_debian.Client.Binds.Interleavings.{
  Made, Asked, Agrees, unnumbered, agreed, Asks, Tells,
}

pub All-map {ℓ κ μ} :
    {A : Type ℓ} (P : A → Type κ) (Q : A → Type μ) (xs : List A)
    → ((x : A) → P x → Q x)
    → All P xs
    → All Q xs
All-map P Q [] k h = tt
All-map P Q (x ∷ xs) k h = (k x h.0, All-map P Q xs k h.1)

get_elem?-append :
    (os xs : List WireObject) (i : ℕ) (q : WireObject)
    → get_elem? os i ≡ some q
    → get_elem? (os ++ xs) i ≡ some q
get_elem?-append [] xs i q h = cc
get_elem?-append (o ∷ os) xs zero q h = h
get_elem?-append (o ∷ os) xs (suc i) q h = get_elem?-append os xs i q h

-- The server only appends.
pub Made-append :
    (os xs : List WireObject) (id : ℕ) (protocol : List ℕ) (version : ℕ)
    → Made os id protocol version
    → Made (os ++ xs) id protocol version
Made-append os xs id protocol version m = record {
  place = m.place;
  object = m.object;
  found = get_elem?-append os xs m.place m.object m.found;
  numbered = m.numbered;
  named = m.named;
  versioned = m.versioned;
}

pub Agrees-append : (qs xs : List WireObject) (o : WireObject) → Agrees qs o → Agrees (qs ++ xs) o
Agrees-append qs xs o (unnumbered e) = unnumbered e
Agrees-append qs xs o (agreed m) = agreed (Made-append qs xs _ _ _ m)

object_for_seq-append :
    (os xs : List WireObject) (seq : ℕ) (o : WireObject)
    → object_for_seq seq os ≡ some o
    → object_for_seq seq (os ++ xs) ≡ some o
unfolding object_for_seq
object_for_seq-append [] xs seq o h = cc
object_for_seq-append (p ∷ os) xs seq o h = ground (arith, h, object_for_seq-append os xs seq o)

-- The client appends, and sets a number.
pub Asked-append :
    (os xs : List WireObject) (seq : ℕ) (protocol : List ℕ) (version : ℕ)
    → Asked os seq protocol version
    → Asked (os ++ xs) seq protocol version
Asked-append os xs seq protocol version a = record {
  object = a.object;
  found = object_for_seq-append os xs seq a.object a.found;
  named = a.named;
  versioned = a.versioned;
}

pub Asked-on_seq :
    (c : ClientSocket) (given id : ℕ) (obj : WireObject) (seq : ℕ) (protocol : List ℕ) (version : ℕ)
    → object_for_seq given c.objects ≡ some obj
    → Asked c.objects seq protocol version
    → Asked (on_seq c given id).objects seq protocol version
Asked-on_seq c given id obj seq protocol version there a = elim (Bool-cases (seq == given)) [
  | inl e ↦
      let is : given ≡ seq = ground (arith, e) in
      record {
        object = record (a.object) { id = id };
        found = rw is (object_for_seq-on_seq c seq id (suc seq) a.object a.found (omega arith)).0;
        named = a.named;
        versioned = a.versioned;
      }
  | inr ne ↦ record {
    object = a.object;
    found = (object_for_seq-on_seq c given id seq obj there (ground (arith, ne))).1 ∙ a.found;
    named = a.named;
    versioned = a.versioned;
  }
]

pub Agrees-set_id :
    (qs : List WireObject) (seq id : ℕ) (obj : WireObject) (os : List WireObject)
    → All (Agrees qs) os
    → object_for_seq seq os ≡ some obj
    → Made qs id obj.protocol_name obj.version
    → All (Agrees qs) (set_id seq id os)
unfolding object_for_seq set_id
Agrees-set_id qs seq id obj [] h found m = cc
Agrees-set_id qs seq id obj (o ∷ os) h found m = elim (Bool-cases (o.seq == seq)) [
  | inl e ↦ let is : obj ≡ o = ground (arith, e, found) in rw (e, set_id) (agreed (rw is at m), h.1)
  | inr ne ↦
      let found' : object_for_seq seq os ≡ some obj = ground (arith, ne, found) in
      rw (ne, set_id) (h.0, Agrees-set_id qs seq id obj os h.1 found' m)
]

pub Asks-append : (os xs : List WireObject) (bytes : List ℕ) → Asks os bytes → Asks (os ++ xs) bytes
Asks-append os xs bytes a = record {
  name = a.name;
  seq = a.seq;
  version = a.version;
  encoded = a.encoded;
  fits = a.fits;
  taken = a.taken;
  asked = Asked-append os xs a.seq a.name a.version a.asked;
}

pub Tells-append :
    (os qs xs : List WireObject) (bytes : List ℕ) → Tells os qs bytes → Tells (os ++ xs) qs bytes
Tells-append os qs xs bytes t = record {
  seq = t.seq;
  id = t.id;
  encoded = t.encoded;
  taken = t.taken;
  protocol = t.protocol;
  version = t.version;
  asked = Asked-append os xs t.seq t.protocol t.version t.asked;
  made = t.made;
}

pub Tells-made :
    (os qs xs : List WireObject) (bytes : List ℕ) → Tells os qs bytes → Tells os (qs ++ xs) bytes
Tells-made os qs xs bytes t = record {
  seq = t.seq;
  id = t.id;
  encoded = t.encoded;
  taken = t.taken;
  protocol = t.protocol;
  version = t.version;
  asked = t.asked;
  made = Made-append qs xs t.id t.protocol t.version t.made;
}

-- And when the client sets a number.
module _ (c : ClientSocket) (given id : ℕ) (obj : WireObject)
    (there : object_for_seq given c.objects ≡ some obj) where
  pub Asks-on_seq : (bytes : List ℕ) → Asks c.objects bytes → Asks (on_seq c given id).objects bytes
  Asks-on_seq bytes a = record {
    name = a.name;
    seq = a.seq;
    version = a.version;
    encoded = a.encoded;
    fits = a.fits;
    taken = a.taken;
    asked = Asked-on_seq c given id obj a.seq a.name a.version there a.asked;
  }

  pub Tells-on_seq :
      (qs : List WireObject) (bytes : List ℕ)
      → Tells c.objects qs bytes
      → Tells (on_seq c given id).objects qs bytes
  Tells-on_seq qs bytes t = record {
    seq = t.seq;
    id = t.id;
    encoded = t.encoded;
    taken = t.taken;
    protocol = t.protocol;
    version = t.version;
    asked = Asked-on_seq c given id obj t.seq t.protocol t.version there t.asked;
    made = t.made;
  }

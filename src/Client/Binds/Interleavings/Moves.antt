-- ===== src/Client/Binds/Interleavings/Moves.antt =====
-- The moves in whatever order they are made.
use hyprwire_debian.Base.{
  Bool, Option, length, ℕ, zero, suc, ◌^◌, ◌<◌, ◌≡◌, ◌≢◌, arith, some, List, [], ◌∷◌, All, sym, ap,
  ◌∙◌,
}
use hyprwire_debian.WireObject.Spec.{Refusal}
use hyprwire_debian.WireObject.Demarshal.{FfiType}
use hyprwire_debian.WireObject.Spec.{WireObject, get_elem?}
use hyprwire_debian.Server.State.{Implementation, ServerClient, object_for_id}
use hyprwire_debian.Server.Objects.{IsNumbered, object_for_id-own}
use hyprwire_debian.Client.Binds.Interleavings.{
  Pair, Move, Agrees, unnumbered, agreed, IsConsistent,
}
use hyprwire_debian.Client.Binds.Interleavings.Steps.{Move-IsConsistent}

-- Any number of moves.
pub data Moves (describe : Refusal → List ℕ) (prep_cif : List FfiType → Bool) (peer : Option ℕ)
    (impls : List Implementation) (s : Pair) : Pair → Type 0 where
  started : Moves describe prep_cif peer impls s s
  moved :
      {t u : Pair}
      → Moves describe prep_cif peer impls s t
      → Move describe prep_cif peer impls t u
      → Moves describe prep_cif peer impls s u

Moves-IsConsistent :
    {describe : Refusal → List ℕ} {prep_cif : List FfiType → Bool} {peer : Option ℕ}
    {impls : List Implementation} {s t : Pair}
    → Moves describe prep_cif peer impls s t
    → IsConsistent s
    → IsConsistent t
Moves-IsConsistent started i = i
Moves-IsConsistent {describe} {prep_cif} {peer} {impls} (moved {t} {u} ms m) i =
    Move-IsConsistent describe prep_cif peer impls t u m (Moves-IsConsistent ms i)

All-get_elem? :
    (P : WireObject → Type 0) (os : List WireObject) (i : ℕ) (o : WireObject)
    → All P os
    → get_elem? os i ≡ some o
    → P o
All-get_elem? P [] i o h e = cc
All-get_elem? P (p ∷ os) zero o h e = let same : p ≡ o = cc e in rw same at h.0
All-get_elem? P (p ∷ os) (suc i) o h e = All-get_elem? P os i o h.1 e

-- What the server finds under a number that the client has.
pub record Serves (server : ServerClient) (o : WireObject) : Type 0 where
  pub object : WireObject
  pub found : object_for_id o.id server.objects ≡ some object
  pub named : object.protocol_name ≡ o.protocol_name
  pub versioned : object.version ≡ o.version

-- Let a client have no objects and no calls that wait, a server's client have its objects numbered
-- from 1 in order with the next number next and no roundtrip to answer, and nothing be on its way
-- between them. Let bindProtocol on the client, where it returns an object, dispatchClient at the
-- server on the oldest message that the client sent and it has not read, and dispatchEvents at the
-- client on the oldest message that the server sent and it has not read, each read taking one whole
-- message, follow on each other in any order, by a side that has no error yet where it reads,
-- binding names below 2^28 bytes in versions of 32 bits that are not 0, with messages below 2^63
-- bytes, sequence numbers below 2^32 and in the end fewer than 2^32 objects at the server, and
-- whether the sockets are valid or not. Then an object of the client that has a number other than 0
-- has one under which onGeneric at the server finds an object of the same protocol and version.
pub Moves-Serves :
    (describe : Refusal → List ℕ) (prep_cif : List FfiType → Bool) (peer : Option ℕ)
    (impls : List Implementation) (s t : Pair) (i : ℕ) (o : WireObject)
    → s.client.objects ≡ []
    → s.up ≡ []
    → s.down ≡ []
    → s.client.pending_outgoing ≡ []
    → IsNumbered s.server
    → s.server.scheduled_roundtrip_seq ≡ 0
    → Moves describe prep_cif peer impls s t
    → length t.server.objects < 2 ^ 32
    → get_elem? t.client.objects i ≡ some o
    → o.id ≢ 0
    → Serves t.server o
Moves-Serves describe prep_cif peer impls s t i o no_objects no_up no_down nothing ids unscheduled
      ms fits e has_number =
    numbered_one (All-get_elem? (Agrees t.server.objects) t.client.objects i o at_last.agreeing e)
  where
    at_first : IsConsistent s
    at_first = record {
      sequenced = rw no_objects (omega arith);
      nothing = nothing;
      numbered = ids;
      unscheduled = unscheduled;
      agreeing = rw no_objects tt;
      asking = rw no_up tt;
      telling = rw no_down tt;
    }

    at_last : IsConsistent t
    at_last = Moves-IsConsistent ms at_first

    numbered_one : Agrees t.server.objects o → Serves t.server o
    numbered_one (unnumbered z) = absurd (has_number z)
    numbered_one (agreed m) = record {
      object = m.object;
      found =
          ap (λ k. object_for_id k t.server.objects) (sym m.numbered)
          ∙ object_for_id-own t.server m.place m.object at_last.numbered fits m.found;
      named = m.named;
      versioned = m.versioned;
    }

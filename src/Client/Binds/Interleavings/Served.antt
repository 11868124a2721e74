-- ===== src/Client/Binds/Interleavings/Served.antt =====
-- The server's handling of a bind (dispatchClient) keeps the two sides in agreement.
use hyprwire_debian.Base.{
  Bool, true, false, Option, none, length, ℕ, ◌≡◌, refl, arith, some, List, [], ◌∷◌, ◌++◌, All,
  All-append, sym, ap, ◌∙◌,
}
use hyprwire_debian.Message.Numbers.{encode_new_object}
use hyprwire_debian.Server.Socket.{answer_roundtrip}
use hyprwire_debian.Server.Client.{create_object}
use mathlib.Core.List.{append-nil}
use hyprwire_debian.WireObject.Spec.{WireObject}
use hyprwire_debian.Server.State.{Implementation, ServerClient, object_for_id}
use hyprwire_debian.Server.Objects.{IsNumbered, create_object-Created, create_object-IsNumbered}
use hyprwire_debian.Server.State
use hyprwire_debian.Server.Creations.{
  Creates, create_object-Creates, answers, written, create_object-Answers,
}
use mathlib.Core.List.{append_cancel_left}
use hyprwire_debian.Client.Binds.{get_elem?-length}
use hyprwire_debian.Client.Binds.Interleavings.{Pair, Made, Agrees, Asks, Tells, IsConsistent}
use hyprwire_debian.Client.Binds.Interleavings.Laws.{All-map, Agrees-append, Tells-made}

-- What was added to a trace is known from what the trace is.
pub added-is {ℓ} :
    {A : Type ℓ} (before after added known : List A)
    → after ≡ before ++ added
    → after ≡ before ++ known
    → added ≡ known
added-is before after added known e k = append_cancel_left before added known (sym e ∙ k)

pub answer_roundtrip-none :
    (c : ServerClient) → c.scheduled_roundtrip_seq ≡ 0 → answer_roundtrip c ≡ c
unfolding answer_roundtrip
answer_roundtrip-none c e = ground (arith, e)

-- The server appends an object, and may tell its number.
served :
    (s : Pair) (server : ServerClient) (made : WireObject) (rest : List (List ℕ))
    → server.objects ≡ s.server.objects ++ made ∷ []
    → All (Asks s.client.objects) rest
    → IsNumbered server
    → server.scheduled_roundtrip_seq ≡ 0
    → IsConsistent s
    → IsConsistent (record s { server = server; up = rest })
served s server made rest e asking k unscheduled i =
    let qs = s.server.objects in
    let os = s.client.objects in
    record {
      sequenced = i.sequenced;
      nothing = i.nothing;
      numbered = k;
      unscheduled = unscheduled;
      agreeing = rw e (
          All-map (Agrees qs) (Agrees (qs ++ made ∷ [])) os (Agrees-append qs (made ∷ []))
            i.agreeing);
      asking = asking;
      telling = rw e (
          All-map (Tells os qs) (Tells os (qs ++ made ∷ [])) s.down (Tells-made os qs (made ∷ []))
            i.telling);
    }

-- The object that is told is the one that was made for the bind.
told :
    (s : Pair) (bytes : List ℕ) (a : Asks s.client.objects bytes) (server : ServerClient)
    (o : WireObject)
    → IsNumbered s.server
    → Creates s.server a.name a.version server o
    → Tells s.client.objects server.objects (encode_new_object a.seq o.id)
told s bytes a server o n k =
    let qs = s.server.objects in
    let made : Made (qs ++ o ∷ []) o.id a.name a.version = record {
      place = length qs;
      object = o;
      found = get_elem?-length qs o;
      numbered = refl;
      named = k.named;
      versioned = k.versioned;
    } in
    record {
      seq = a.seq;
      id = o.id;
      encoded = refl;
      taken = (a.taken.1, omega (arith, k.id, n.1));
      protocol = a.name;
      version = a.version;
      asked = a.asked;
      made = rw k.objects made;
    }

-- The server dispatches a bind: createObject, and what it writes.
pub serves-IsConsistent :
    (impls : List Implementation) (s : Pair) (bytes : List ℕ) (a : Asks s.client.objects bytes)
    (rest : List (List ℕ)) (added : List State.Event)
    → All (Asks s.client.objects) rest
    → (create_object impls s.server a.name [] a.version a.seq).0.trace ≡ s.server.trace ++ added
    → IsConsistent s
    → IsConsistent (record s {
      server = (create_object impls s.server a.name [] a.version a.seq).0;
      up = rest;
      down = s.down ++ written added;
    })
serves-IsConsistent impls s bytes a rest added asking e i =
    rw is_written (by_made s.server.valid r.1 refl)
  where
    r : ServerClient × Option WireObject
    r = create_object impls s.server a.name [] a.version a.seq

    is_written : written added ≡ answers s.server.valid a.seq r.1
    is_written =
        let w = create_object-Answers impls s.server a.name [] a.version a.seq in
        ap written (added-is s.server.trace r.0.trace added w.added e w.trace) ∙ w.writes

    at_server : IsConsistent (record s { server = r.0; up = rest })
    at_server =
        let k = create_object-Created impls s.server a.name [] a.version a.seq in
        served s r.0 k.made rest k.objects asking
          (create_object-IsNumbered impls s.server a.name [] a.version a.seq i.numbered)
          ((create_object-Answers impls s.server a.name [] a.version a.seq).scheduled
            ∙ i.unscheduled)
          i

    untold : IsConsistent (record s { server = r.0; up = rest; down = s.down ++ [] })
    untold = rw (append-nil s.down) at_server

    by_made :
        (valid : Bool) (m : Option WireObject)
        → r.1 ≡ m
        → IsConsistent
            (record s { server = r.0; up = rest; down = s.down ++ answers valid a.seq m })
    by_made true none k = untold
    by_made false none k = untold
    by_made false (some o) k = untold
    by_made true (some o) k =
        let creates =
          create_object-Creates impls s.server a.name [] a.version a.seq r.0 o (λ j. (r.0, k j)) in
        record {
          sequenced = at_server.sequenced;
          nothing = at_server.nothing;
          numbered = at_server.numbered;
          unscheduled = at_server.unscheduled;
          agreeing = at_server.agreeing;
          asking = at_server.asking;
          telling =
              All-append (Tells s.client.objects r.0.objects) s.down
                (encode_new_object a.seq o.id ∷ []) at_server.telling
                (told s bytes a r.0 o i.numbered creates, tt);
        }

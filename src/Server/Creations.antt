-- ===== src/Server/Creations.antt =====
-- What createObject makes, where it makes something (src/core/server/ServerClient.cpp).
use hyprwire_debian.Base.{
  ℕ, ◌≡◌, refl, sym, ap, arith, Bool-cases, inl, inr, Option, none, some, List, [], ◌∷◌, ◌++◌, ltb,
  ◌∙◌, Bool, true, false, ◌+◌, ◌%◌, ◌^◌,
}
use hyprwire_debian.WireObject.Spec.{ObjectSpec, WireObject, fresh}
use hyprwire_debian.Server.State.{
  Implementation, ServerClient, Event, sent, bound, heard, find_impl, find_object, binds,
}
use hyprwire_debian.Server.Client.{
  create_object, join_protocol, fill_object, make_object, send_message, on_bind,
}
use hyprwire_debian.Message.Numbers.{encode_new_object}
use mathlib.Core.List.{append-nil, append_assoc}
use hyprwire_debian.Server.Errors.{
  Lacks, no_protocol, no_object, too_old, create_object-Lacks, create_object-offered,
}

-- The object that is returned is the last one, with the next number, the protocol and the version.
pub record Creates (c : ServerClient) (protocol : List ℕ) (version : ℕ) (c' : ServerClient)
    (o : WireObject) : Type 0 where
  pub objects : c'.objects ≡ c.objects ++ o ∷ []
  pub id : o.id ≡ c.max_id
  pub named : o.protocol_name ≡ protocol
  pub versioned : o.version ≡ version

pub create_object-Creates :
    (impls : List Implementation) (c : ServerClient) (protocol object : List ℕ) (version seq : ℕ)
    (c' : ServerClient) (o : WireObject)
    → create_object impls c protocol object version seq ≡ (c', some o)
    → Creates c protocol version c' o
create_object-Creates impls c protocol object version seq c' o h =
    at_protocol (find_impl protocol impls) refl
  where
    lacking : Lacks impls protocol object version → Creates c protocol version c' o
    lacking l =
        let none_made = (create_object-Lacks impls c protocol object version seq l).0 in
        let some_made : (create_object impls c protocol object version seq).1 ≡ some o =
          ap (λ r. r.1) h in
        absurd (cc (none_made, some_made))

    at_object :
        (p : Implementation)
        → find_impl protocol impls ≡ some p
        → (m : Option ObjectSpec) → find_object object p.protocol.objects ≡ m
        → Creates c protocol version c' o
    at_object p e none k = lacking (no_object e k)
    at_object p e (some spec) k = elim (Bool-cases (ltb p.protocol.spec_ver version)) [
      | inl above ↦ lacking (too_old e (ground (arith, above)))
      | inr not_above ↦
          let made =
            sym h
            ∙ create_object-offered impls c protocol object version seq p spec e k
                (ground (arith, not_above)) in
          let obj : WireObject = record fresh {
            id = c.max_id;
            version = version;
            protocol_name = protocol;
            spec = some spec;
          } in
          let same : some o ≡ some obj = ap {B = Option WireObject} (λ r. r.1) made in
          let is_obj : o ≡ obj = cc same in
          record {
            objects = ap (λ r. r.0.objects) made ∙ ap (λ x. c.objects ++ x ∷ []) (sym is_obj);
            id = ap (λ x. x.id) is_obj;
            named = ap (λ x. x.protocol_name) is_obj;
            versioned = ap (λ x. x.version) is_obj;
          }
    ]

    at_protocol :
        (m : Option Implementation) → find_impl protocol impls ≡ m → Creates c protocol version c' o
    at_protocol none e = lacking (no_protocol e)
    at_protocol (some p) e = at_object p e (find_object object p.protocol.objects) refl

-- The messages that a server's client wrote.
abbrev pub written : List Event → List (List ℕ)
written [] = []
written (sent bytes fds ∷ es) = bytes ∷ written es
written (bound id ∷ es) = written es
written (heard id method args ∷ es) = written es

-- The one message for an object that was made.
abbrev pub answers : Bool → ℕ → Option WireObject → List (List ℕ)
answers true seq (some o) = encode_new_object seq o.id ∷ []
answers false seq (some o) = []
answers valid seq none = []

-- What createObject writes, and that it leaves a scheduled roundtrip alone.
pub record Answers (c : ServerClient) (seq : ℕ) (r : ServerClient × Option WireObject)
    : Type 0 where
  pub added : List Event
  pub trace : r.0.trace ≡ c.trace ++ added
  pub writes : written added ≡ answers c.valid seq r.1
  pub scheduled : r.0.scheduled_roundtrip_seq ≡ c.scheduled_roundtrip_seq

fail_object-Answers :
    (c c0 : ServerClient) (obj : WireObject) (seq : ℕ)
    → c0.trace ≡ c.trace
    → c0.scheduled_roundtrip_seq ≡ c.scheduled_roundtrip_seq
    → Answers c seq (record c0 { objects = c0.objects ++ obj ∷ []; error = true }, none)
fail_object-Answers c c0 obj seq e k = record {
  added = [];
  trace = e ∙ sym (append-nil c.trace);
  writes = answers-none c.valid seq;
  scheduled = k;
}
  where
    answers-none : (valid : Bool) (seq : ℕ) → [] ≡ answers valid seq none
    answers-none true seq = refl
    answers-none false seq = refl

make_object-Answers :
    (impls : List Implementation) (c : ServerClient) (obj : WireObject) (spec : ObjectSpec)
    (seq : ℕ) (valid : Bool) (p : Option Implementation)
    → c.valid ≡ valid
    → find_impl obj.protocol_name impls ≡ p
    → Answers c seq (make_object impls c obj spec seq)
unfolding make_object send_message on_bind
make_object-Answers impls c obj spec seq true none e k = record {
  added = sent (encode_new_object seq obj.id) [] ∷ [];
  trace = rw (e, k) refl;
  writes = rw e refl;
  scheduled = rw (e, k) refl;
}
make_object-Answers impls c obj spec seq false none e k = record {
  added = [];
  trace = rw (e, k) (sym (append-nil c.trace));
  writes = rw e refl;
  scheduled = rw (e, k) refl;
}
make_object-Answers impls c obj spec seq true (some p) e k =
    elim (Bool-cases (binds spec.object_name p.implementation)) [
      | inl b ↦ record {
        added = sent (encode_new_object seq obj.id) [] ∷ bound obj.id ∷ [];
        trace = rw (e, k, b) (append_assoc c.trace _ _);
        writes = rw e refl;
        scheduled = rw (e, k, b) refl;
      }
      | inr b ↦ record {
        added = sent (encode_new_object seq obj.id) [] ∷ [];
        trace = rw (e, k, b) refl;
        writes = rw e refl;
        scheduled = rw (e, k, b) refl;
      }
    ]
make_object-Answers impls c obj spec seq false (some p) e k =
    elim (Bool-cases (binds spec.object_name p.implementation)) [
      | inl b ↦ record {
        added = bound obj.id ∷ [];
        trace = rw (e, k, b) refl;
        writes = rw e refl;
        scheduled = rw (e, k, b) refl;
      }
      | inr b ↦ record {
        added = [];
        trace = rw (e, k, b) (sym (append-nil c.trace));
        writes = rw e refl;
        scheduled = rw (e, k, b) refl;
      }
    ]

-- createObject tells the number of an object that it made, over a valid socket, and writes nothing
-- else.
pub create_object-Answers :
    (impls : List Implementation) (c : ServerClient) (protocol object : List ℕ) (version seq : ℕ)
    → Answers c seq (create_object impls c protocol object version seq)
unfolding create_object join_protocol fill_object
create_object-Answers impls c protocol object version seq = at_protocol (find_impl protocol impls)
  where
    c0 : ServerClient
    c0 = record c { max_id = (c.max_id + 1) % 2 ^ 32 }

    obj : WireObject
    obj = record fresh { id = c.max_id; version = version }

    from : (r : ServerClient × Option WireObject) → Answers c0 seq r → Answers c seq r
    from r a = record {
      added = a.added;
      trace = a.trace;
      writes = a.writes;
      scheduled = a.scheduled;
    }

    at_object :
        (named : WireObject) (spec_ver : ℕ) (m : Option ObjectSpec)
        → Answers c seq (fill_object impls c0 named m spec_ver seq)
    at_object named spec_ver none = fail_object-Answers c c0 named seq refl refl
    at_object named spec_ver (some spec) = elim (Bool-cases (ltb spec_ver named.version)) [
      | inl e ↦ rw e (fail_object-Answers c c0 (record named { spec = some spec }) seq refl refl)
      | inr e ↦ rw e (
          from (make_object impls c0 (record named { spec = some spec }) spec seq) (
            make_object-Answers impls c0 (record named { spec = some spec }) spec seq c.valid
              (find_impl named.protocol_name impls) refl refl))
    ]

    at_protocol :
        (m : Option Implementation)
        → Answers c seq (join_protocol impls c0 obj m protocol object seq)
    at_protocol none = fail_object-Answers c c0 obj seq refl refl
    at_protocol (some p) =
        at_object (record obj { protocol_name = protocol }) p.protocol.spec_ver
          (find_object object p.protocol.objects)

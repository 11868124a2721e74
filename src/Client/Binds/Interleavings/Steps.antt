-- ===== src/Client/Binds/Interleavings/Steps.antt =====
-- Each move keeps the two sides in agreement (bindProtocol, dispatchClient and dispatchEvents).
use hyprwire_debian.Base.{
  Bool, true, false, Option, ℕ, ◌≡◌, refl, arith, some, List, [], ◌∷◌, ◌++◌, All, All-append, sym,
  ap, ◌∙◌,
}
use hyprwire_debian.Outcome.{Outcome, done}
use hyprwire_debian.WireObject.Spec.{Refusal}
use hyprwire_debian.WireObject.Demarshal.{FfiType}
use hyprwire_debian.Message.Numbers.{encode_new_object}
use hyprwire_debian.Server.Client.{create_object}
use hyprwire_debian.Client.Binds.{bind-dispatched}
use hyprwire_debian.Client.Replies.{new_object, numbered, reply_bytes, reply_fds}
use hyprwire_debian.Client.Replies.Runs.{readable, dispatch_events-Step}
use mathlib.Core.List.{append-nil}
use hyprwire_debian.WireObject.Spec.{WireObject}
use hyprwire_debian.Server.State.{Implementation}
use hyprwire_debian.Server.Creations.{create_object-Answers}
use hyprwire_debian.Server.Socket.{dispatch_client}
use hyprwire_debian.Client.Dispatch.{dispatch_events}
use hyprwire_debian.Client.Handshakes.{raw_of}
use hyprwire_debian.Message.BindProtocol.{encode_bind_protocol}
use hyprwire_debian.Client.State.{ClientSocket}
use hyprwire_debian.Client.Operations.{on_seq}
use hyprwire_debian.Client.Objects.{Keeps-IsSequenced, on_seq-Keeps, object_for_seq-new}
use hyprwire_debian.Client.Objects.Binds.{
  Binds, bind_sent, bind_protocol-Binds, bind_protocol-IsSequenced,
}
use hyprwire_debian.Client.Binds.{object_for_seq-last}
use hyprwire_debian.Client.Binds.Interleavings.{
  Pair, Move, sends, asks, serves, learns, Made, Asked, Agrees, unnumbered, Asks, Tells,
  IsConsistent,
}
use hyprwire_debian.Client.Binds.Interleavings.Laws.{
  All-map, Agrees-set_id, Asks-append, Asks-on_seq, Tells-append, Tells-on_seq,
}
use hyprwire_debian.Client.Binds.Interleavings.Served.{
  added-is, answer_roundtrip-none, serves-IsConsistent,
}

learns-IsConsistent :
    (s : Pair) (bytes : List ℕ) (t : Tells s.client.objects s.server.objects bytes)
    (rest : List (List ℕ))
    → All (Tells s.client.objects s.server.objects) rest
    → IsConsistent s
    → IsConsistent (record s { client = on_seq s.client t.seq t.id; down = rest })
learns-IsConsistent s bytes t rest telling i =
    let os = s.client.objects in
    let qs = s.server.objects in
    let c = on_seq s.client t.seq t.id in
    let asked = t.asked in
    let made : Made qs t.id asked.object.protocol_name asked.object.version =
      rw (asked.named, asked.versioned) t.made in
    record {
      numbered = i.numbered;
      unscheduled = i.unscheduled;
      nothing = unfold on_seq in i.nothing;
      sequenced = Keeps-IsSequenced s.client c (on_seq-Keeps s.client t.seq t.id) i.sequenced;
      agreeing =
          unfold on_seq in Agrees-set_id qs t.seq t.id asked.object os i.agreeing asked.found made;
      asking =
          All-map (Asks os) (Asks c.objects) s.up
            (Asks-on_seq s.client t.seq t.id asked.object asked.found) i.asking;
      telling =
          All-map (Tells os qs) (Tells c.objects qs) rest
            (Tells-on_seq s.client t.seq t.id asked.object asked.found qs) telling;
    }

done-inj {ℓ} : {A : Type ℓ} {a b : A} → ◌≡◌ {A = Outcome A} (done a) (done b) → a ≡ b
done-inj e = cc e

pub Move-IsConsistent :
    (describe : Refusal → List ℕ) (prep_cif : List FfiType → Bool) (peer : Option ℕ)
    (impls : List Implementation) (s t : Pair)
    → Move describe prep_cif peer impls s t
    → IsConsistent s
    → IsConsistent t
Move-IsConsistent describe prep_cif peer impls s t
      (asks spec version c o added small short word nonzero fits e traced) i =
    rw (ap sends (added-is s.client.trace c.trace added _ traced b.trace)) (by_valid s.client.valid)
  where
    b : Binds s.client spec version c o
    b = bind_protocol-Binds s.client spec version c o small e

    os : List WireObject
    os = s.client.objects

    qs : List WireObject
    qs = s.server.objects

    new_asked : Asked (os ++ o ∷ []) o.seq spec.spec_name version
    new_asked = record {
      object = o;
      found =
          object_for_seq-last o.seq os o
            (object_for_seq-new 0 os s.client.seq o.seq i.sequenced (omega (arith, b.seq))) refl;
      named = b.named;
      versioned = b.versioned;
    }

    asks_new : Asks (os ++ o ∷ []) (encode_bind_protocol spec.spec_name o.seq version)
    asks_new = record {
      name = spec.spec_name;
      seq = o.seq;
      version = version;
      encoded = refl;
      fits = rw b.seq fits;
      taken = (short, omega (arith, b.seq, small), word, nonzero);
      asked = new_asked;
    }

    asking : All (Asks (os ++ o ∷ [])) s.up
    asking = All-map (Asks os) (Asks (os ++ o ∷ [])) s.up (Asks-append os (o ∷ [])) i.asking

    sent_up :
        (valid : Bool)
        → All (Asks (os ++ o ∷ [])) (s.up ++ sends (bind_sent valid spec.spec_name o.seq version))
    sent_up true =
        All-append (Asks (os ++ o ∷ [])) s.up
          (encode_bind_protocol spec.spec_name o.seq version ∷ []) asking (asks_new, tt)
    sent_up false = rw (append-nil s.up) asking

    by_valid :
        (valid : Bool)
        → IsConsistent (record s {
          client = c;
          up = s.up ++ sends (bind_sent valid spec.spec_name o.seq version);
        })
    by_valid valid = record {
      numbered = i.numbered;
      unscheduled = i.unscheduled;
      nothing = b.pending ∙ i.nothing;
      sequenced = bind_protocol-IsSequenced s.client spec version c (some o) small i.sequenced e;
      agreeing =
          rw b.objects
            (All-append (Agrees qs) os (o ∷ []) i.agreeing (unnumbered b.unnumbered, tt));
      asking = rw b.objects (sent_up valid);
      telling = rw b.objects (
          All-map (Tells os qs) (Tells (os ++ o ∷ []) qs) s.down (Tells-append os qs (o ∷ []))
            i.telling);
    }
Move-IsConsistent describe prep_cif peer impls s t (serves bytes rest c added up no_error e traced)
      i =
    let asking = rw up at i.asking in
    let a : Asks s.client.objects bytes = asking.0 in
    let made = create_object impls s.server a.name [] a.version a.seq in
    let unscheduled =
      (create_object-Answers impls s.server a.name [] a.version a.seq).scheduled ∙ i.unscheduled in
    let dispatched =
      ap (λ b. dispatch_client describe prep_cif peer impls s.server (raw_of b)) a.encoded
      ∙ bind-dispatched describe prep_cif peer impls s.server a.name a.seq a.version no_error
          a.taken a.fits in
    let is_made : c ≡ made.0 =
      done-inj (sym e ∙ dispatched) ∙ answer_roundtrip-none made.0 unscheduled in
    rw is_made (
      serves-IsConsistent impls s bytes a rest added asking.1
        (ap (λ x. x.trace) (sym is_made) ∙ traced) i)
Move-IsConsistent describe prep_cif peer impls s t
      (learns bytes rest c more added down no_error e traced) i =
    let telling = rw down at i.telling in
    let a : Tells s.client.objects s.server.objects bytes = telling.0 in
    let known = on_seq s.client a.seq a.id in
    let dispatched =
      ap (λ b. dispatch_events describe prep_cif s.client (readable b)) a.encoded
      ∙ dispatch_events-Step describe prep_cif s.client (new_object a.seq a.id) known
          (encode_new_object a.seq a.id) no_error numbered (unfold on_seq in i.nothing) a.taken
          (unfold reply_fds in refl) (unfold reply_bytes in refl)
          (unfold encode_new_object in omega arith) in
    let is_known : c ≡ known =
      ap {A = ClientSocket × Bool} (λ r. r.0) (done-inj (sym e ∙ dispatched)) in
    let same : known.trace ≡ s.client.trace = unfold on_seq in refl in
    let untraced : c.trace ≡ s.client.trace ++ [] =
      ap (λ x. x.trace) is_known ∙ same ∙ sym (append-nil s.client.trace) in
    rw (is_known, added-is s.client.trace c.trace added [] traced untraced, append-nil s.up)
      (learns-IsConsistent s bytes a rest telling.1 i)

-- ===== src/Client/Objects/Binds.antt =====
-- What bindProtocol does to the objects of a client (src/core/client/ClientSocket.cpp).
use hyprwire_debian.Base.{
  sym, ap, ◌∙◌, ℕ, ◌+◌, ◌%◌, ◌^◌, ◌<◌, ◌≤◌, ◌≡◌, inl, inr, refl, arith, Bool, true, false, Option,
  none, some, List, [], ◌∷◌, ◌++◌, ltb, Bool-cases,
}
use hyprwire_debian.Outcome.{done, crash}
use hyprwire_debian.Outcome.Results.{Results, Results-done, Results-if}
use hyprwire_debian.WireObject.Spec.{fresh, WireObject, ObjectSpec, ProtocolSpec}
use hyprwire_debian.Message.BindProtocol.{encode_bind_protocol}
use hyprwire_debian.Client.State.{ClientSocket, Event, sent}
use mathlib.Core.List.{append-nil}
use hyprwire_debian.Client.Operations.{send_message, disconnect_on_error, bind_protocol}
use hyprwire_debian.Client.Objects.{
  Keeps-IsSequenced, IsSequenced, Ascending-append, send_message-Keeps,
}

-- An object that is asked for with the next number, and the client that has asked for it.
abbrev pub asked_for : ClientSocket → ProtocolSpec → ObjectSpec → ℕ → WireObject
asked_for c spec front version = record fresh {
  spec = some front;
  seq = c.seq + 1;
  version = version;
  protocol_name = spec.spec_name;
}

abbrev pub asking : ClientSocket → ProtocolSpec → ObjectSpec → ℕ → ClientSocket
asking c spec front version = record c {
  seq = c.seq + 1;
  objects = c.objects ++ asked_for c spec front version ∷ [];
}

pub bind_protocol-asking :
    (c : ClientSocket) (spec : ProtocolSpec) (version : ℕ) (front : ObjectSpec)
    (os : List ObjectSpec)
    → c.seq + 1 < 2 ^ 32
    → version ≤ spec.spec_ver
    → spec.objects ≡ front ∷ os
    → bind_protocol c spec version
      ≡ done (
        send_message
            (asking c spec front version)
            (encode_bind_protocol spec.spec_name (c.seq + 1) version)
            [],
        some (asked_for c spec front version),
      )
unfolding bind_protocol
bind_protocol-asking c spec version front os small le e =
    let next : (c.seq + 1) % 2 ^ 32 ≡ c.seq + 1 = omega arith in
    let fits : ltb spec.spec_ver version ≡ false = ground arith in
    rw (fits, e, next, bind_protocol) refl

pub asking-IsSequenced :
    (c : ClientSocket) (spec : ProtocolSpec) (front : ObjectSpec) (version : ℕ)
    → IsSequenced c
    → IsSequenced (asking c spec front version)
asking-IsSequenced c spec front version h =
    Ascending-append 0 c.objects (asked_for c spec front version) c.seq (omega arith) h

-- What is sent for a bind.
abbrev pub bind_sent : Bool → List ℕ → ℕ → ℕ → List Event
bind_sent true name seq version = sent (encode_bind_protocol name seq version) [] ∷ []
bind_sent false name seq version = []

bind_sent-trace :
    (valid : Bool) (c : ClientSocket) (name : List ℕ) (seq version : ℕ)
    → c.valid ≡ valid
    → (send_message c (encode_bind_protocol name seq version) []).trace
      ≡ c.trace ++ bind_sent c.valid name seq version
unfolding send_message
bind_sent-trace true c name seq version e = rw e refl
bind_sent-trace false c name seq version e = rw e (sym (append-nil c.trace))

-- What bindProtocol does, where it makes an object.
pub record Binds (c : ClientSocket) (spec : ProtocolSpec) (version : ℕ) (c' : ClientSocket)
    (o : WireObject) : Type 0 where
  pub objects : c'.objects ≡ c.objects ++ o ∷ []
  pub seq : o.seq ≡ c.seq + 1
  pub unnumbered : o.id ≡ 0
  pub named : o.protocol_name ≡ spec.spec_name
  pub versioned : o.version ≡ version
  pub pending : c'.pending_outgoing ≡ c.pending_outgoing
  pub trace : c'.trace ≡ c.trace ++ bind_sent c.valid spec.spec_name o.seq version

pub bind_protocol-Binds :
    (c : ClientSocket) (spec : ProtocolSpec) (version : ℕ) (c' : ClientSocket) (o : WireObject)
    → c.seq + 1 < 2 ^ 32
    → bind_protocol c spec version ≡ done (c', some o)
    → Binds c spec version c' o
bind_protocol-Binds c spec version c' o small h = bound spec.objects refl
  where
    bound : (os : List ObjectSpec) → spec.objects ≡ os → Binds c spec version c' o
    bound [] k = absurd (unfold bind_protocol in ground (arith, h, k))
    bound (front ∷ os) k = elim (Bool-cases (ltb spec.spec_ver version)) [
      | inl above ↦ absurd (unfold bind_protocol in ground (arith, h, k, above))
      | inr not_above ↦
          let made =
            sym h
            ∙ bind_protocol-asking c spec version front os small (ground (arith, not_above)) k in
          let told =
            send_message (asking c spec front version)
              (encode_bind_protocol spec.spec_name (c.seq + 1) version) [] in
          let told_objects : told.objects ≡ c.objects ++ asked_for c spec front version ∷ [] =
            unfold send_message in ground arith in
          let same : some o ≡ some (asked_for c spec front version) = cc made in
          let is_obj : o ≡ asked_for c spec front version = cc same in
          let is_told : c' ≡ told = cc made in
          record {
            objects =
                ap (λ d. d.objects) is_told
                ∙ told_objects
                ∙ ap (λ x. c.objects ++ x ∷ []) (sym is_obj);
            seq = ap (λ x. x.seq) is_obj;
            unnumbered = ap (λ x. x.id) is_obj;
            named = ap (λ x. x.protocol_name) is_obj;
            versioned = ap (λ x. x.version) is_obj;
            pending = ap (λ d. d.pending_outgoing) is_told ∙ (unfold send_message in ground arith);
            trace =
                ap (λ d. d.trace) is_told
                ∙ bind_sent-trace c.valid (asking c spec front version) spec.spec_name (c.seq + 1)
                    version refl
                ∙ ap (λ x. c.trace ++ bind_sent c.valid spec.spec_name x.seq version) (sym is_obj);
          }
    ]

pub bind_protocol-IsSequenced :
    (c : ClientSocket) (spec : ProtocolSpec) (version : ℕ) (c' : ClientSocket)
    (made : Option WireObject)
    → c.seq + 1 < 2 ^ 32
    → IsSequenced c
    → bind_protocol c spec version ≡ done (c', made)
    → IsSequenced c'
bind_protocol-IsSequenced c spec version c' made small h e =
    Results-done (λ r. IsSequenced r.0) (bind_protocol c spec version) (c', made)
      (bound spec.objects refl) e
  where
    bound :
        (os : List ObjectSpec)
        → spec.objects ≡ os
        → Results (λ r. IsSequenced r.0) (bind_protocol c spec version)
    bound [] k =
        unfold bind_protocol disconnect_on_error in
        rw (k, bind_protocol)
          (Results-if (λ r. IsSequenced r.0) (ltb spec.spec_ver version)
            (done (disconnect_on_error c, none)) crash h tt)
    bound (front ∷ os) k = elim (Bool-cases (ltb spec.spec_ver version)) [
      | inl above ↦ unfold bind_protocol disconnect_on_error in rw (above, bind_protocol) h
      | inr not_above ↦
          rw (bind_protocol-asking c spec version front os small (ground (arith, not_above)) k) (
            Keeps-IsSequenced (asking c spec front version)
              (send_message (asking c spec front version)
                (encode_bind_protocol spec.spec_name (c.seq + 1) version) [])
              (send_message-Keeps (asking c spec front version)
                (encode_bind_protocol spec.spec_name (c.seq + 1) version) [])
              (asking-IsSequenced c spec front version h))
    ]

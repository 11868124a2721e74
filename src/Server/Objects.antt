-- ===== src/Server/Objects.antt =====
-- The numbers of the objects of CServerClient: `m_maxId` and `m_objects`.
pub mod Dispatch
use hyprwire_debian.Base.{
  not, ◌&&◌, add64, ℕ, zero, suc, ◌+◌, ◌%◌, ◌-◌, ◌^◌, ◌<◌, ◌≤◌, ◌≡◌, refl, ap, ◌∙◌, arith, Bool,
  true, false, Option, none, some, List, [], ◌∷◌, ◌++◌, map, length, length-append, ◌==◌,
  if◌then◌else◌, ltb,
}
use hyprwire_debian.Outcome.{Outcome, done, reject, crash, stuck, ◌>>=◌}
use hyprwire_debian.Outcome.Results.{Results, Results->>=, Results-done, Results-if, Results-option}
use hyprwire_debian.WireObject.Spec.{
  fresh, methods_in, WireObject, ObjectSpec, Refusal, get_elem?, is_empty,
}
use hyprwire_debian.WireObject.Demarshal.{
  called, FfiType, Called, ignored, refused, failed, invoked,
}
use hyprwire_debian.Message.Hello.{parse_hello}
use hyprwire_debian.Message.Handshake.{
  encode_handshake_begin, encode_handshake_protocols, parse_handshake_ack,
}
use hyprwire_debian.Message.BindProtocol.{parse_bind_protocol}
use hyprwire_debian.Message.Numbers.{
  encode_roundtrip_done, parse_roundtrip_request, encode_new_object,
}
use hyprwire_debian.Message.FatalError.{encode_fatal_error}
use hyprwire_debian.Message.Generic.{Generic, parse_generic}
use hyprwire_debian.Server.State.{
  Implementation, ServerClient, log, sent, bound, object_for_id, find_impl, find_object, binds,
}
use hyprwire_debian.Server.Client.{
  create_object, fill_object, make_object, fail_object, join_protocol, on_bind, on_bind_name,
  send_message, dispatch_first_poll, object_error, after_called, call_object, on_generic,
}
use hyprwire_debian.Server.Parser.{
  protocol_ver, protocol_text, Parsed, Result, parsed_ok, parsed_error, parsed_stray_fds, decoded,
  parse_single_message, on_hello, on_ack, on_bind_message, on_generic_message, on_roundtrip_request,
  handle_message,
}
use hyprwire_debian.Server.Socket.{
  invalid_text, failed_text, RawMessage, dispatch_client, after_message, answer_roundtrip,
  drop_client,
}

-- The objects from number `k` on; the numbers wrap at 2 ^ 32.
abbrev pub Numbered : ℕ → List WireObject → Type 0
Numbered k [] = Unit {0}
Numbered k (o ∷ os) = (o.id ≡ k % 2 ^ 32) × Numbered (suc k) os

-- The objects are numbered from 1 in the order in which they were made, and the next number is next.
abbrev pub IsNumbered : ServerClient → Type 0
IsNumbered c = Numbered 1 c.objects × (c.max_id ≡ suc (length c.objects) % 2 ^ 32)

-- What an operation may do to the objects: nothing, or append one.
pub record Created (c c' : ServerClient) : Type 0 where
  pub made : WireObject
  pub objects : c'.objects ≡ c.objects ++ made ∷ []
  pub id : made.id ≡ c.max_id
  pub next : c'.max_id ≡ (c.max_id + 1) % 2 ^ 32

pub data Grows (c c' : ServerClient) : Type 0 where
  same : c'.objects ≡ c.objects → c'.max_id ≡ c.max_id → Grows c c'
  created : Created c c' → Grows c c'

Numbered-append :
    (k : ℕ) (os : List WireObject) (o : WireObject)
    → Numbered k os
    → o.id ≡ (k + length os) % 2 ^ 32
    → Numbered k (os ++ o ∷ [])
Numbered-append k [] o h e = (ground (arith, e), tt)
Numbered-append k (p ∷ os) o h e = (h.0, Numbered-append (suc k) os o h.1 (ground (arith, e)))

Grows-IsNumbered : (c c' : ServerClient) → Grows c c' → IsNumbered c → IsNumbered c'
Grows-IsNumbered c c' (same objects max_id) h = (rw objects h.0, rw (objects, max_id) h.1)
Grows-IsNumbered c c' (created m) h = (
  rw m.objects (Numbered-append 1 c.objects m.made h.0 (ground (arith, m.id, h.1))),
  ground (arith, m.objects, m.next, h.1, length-append c.objects (m.made ∷ [])),
)

-- What leaves the objects alone.
abbrev Keeps : ServerClient → ServerClient → Type 0
Keeps c c' = (c'.objects ≡ c.objects) × (c'.max_id ≡ c.max_id)

send_message-Keeps : (c : ServerClient) (bytes fds : List ℕ) → Keeps c (send_message c bytes fds)
unfolding send_message
send_message-Keeps c bytes fds =
    elim c.valid as (λ b. Keeps c (if b then log c (sent bytes fds) else c)) [
      | true ↦ (refl, refl)
      | false ↦ (refl, refl)
    ]

on_bind-Keeps :
    (impls : List Implementation) (c : ServerClient) (obj : WireObject) (spec : ObjectSpec)
    → Keeps c (on_bind impls c obj spec)
unfolding on_bind
on_bind-Keeps impls c obj spec =
    on_bind_name-Keeps (find_impl obj.protocol_name impls) spec.object_name obj.id c
  where
    on_bind_name-Keeps :
        (p : Option Implementation) (name : List ℕ) (id : ℕ) (c : ServerClient)
        → Keeps c (on_bind_name p name id c)
    on_bind_name-Keeps none name id c = (refl, refl)
    on_bind_name-Keeps (some p) name id c =
        elim (binds name p.implementation) as (λ b. Keeps c (if b then log c (bound id) else c)) [
          | true ↦ (refl, refl)
          | false ↦ (refl, refl)
        ]

-- The object that is appended, with the number that it was given.
abbrev Appends : ServerClient → ℕ → ServerClient → Type 0
Appends c id c' =
    (made : WireObject) × (c'.objects ≡ c.objects ++ made ∷ [])
    × (made.id ≡ id)
    × (c'.max_id ≡ c.max_id)

make_object-Appends :
    (impls : List Implementation) (c : ServerClient) (obj : WireObject) (spec : ObjectSpec)
    (seq : ℕ)
    → Appends c obj.id (make_object impls c obj spec seq).0
unfolding make_object
make_object-Appends impls c obj spec seq =
    let c1 : ServerClient = record c { objects = c.objects ++ obj ∷ [] } in
    let c2 = send_message c1 (encode_new_object seq obj.id) [] in
    let h = send_message-Keeps c1 (encode_new_object seq obj.id) [] in
    let k = on_bind-Keeps impls c2 obj spec in (obj, k.0 ∙ h.0, refl, k.1 ∙ h.1)

fill_object-Appends :
    (impls : List Implementation) (c : ServerClient) (obj : WireObject) (found : Option ObjectSpec)
    (spec_ver seq : ℕ)
    → Appends c obj.id (fill_object impls c obj found spec_ver seq).0
unfolding fill_object
fill_object-Appends impls c obj none spec_ver seq = (obj, refl, refl, refl)
fill_object-Appends impls c obj (some spec) spec_ver seq =
    let obj' : WireObject = record obj { spec = some spec } in
    elim (ltb spec_ver obj.version)
      as (λ b.
        Appends c obj.id (if b then fail_object c obj' else make_object impls c obj' spec seq).0) [
          | true ↦ (obj', refl, refl, refl)
          | false ↦ make_object-Appends impls c obj' spec seq
        ]

join_protocol-Appends :
    (impls : List Implementation) (c : ServerClient) (obj : WireObject) (p : Option Implementation)
    (protocol object : List ℕ) (seq : ℕ)
    → Appends c obj.id (join_protocol impls c obj p protocol object seq).0
unfolding join_protocol
join_protocol-Appends impls c obj none protocol object seq = (obj, refl, refl, refl)
join_protocol-Appends impls c obj (some p) protocol object seq =
    fill_object-Appends impls c (record obj { protocol_name = protocol })
      (find_object object p.protocol.objects) p.protocol.spec_ver seq

-- Whatever becomes of it, createObject appends an object with the next number.
pub create_object-Created :
    (impls : List Implementation) (c : ServerClient) (protocol object : List ℕ) (version seq : ℕ)
    → Created c (create_object impls c protocol object version seq).0
unfolding create_object
create_object-Created impls c protocol object version seq =
    let r =
      join_protocol-Appends impls (record c { max_id = (c.max_id + 1) % 2 ^ 32 })
        (record fresh { id = c.max_id; version = version }) (find_impl protocol impls) protocol
        object seq in
    record { made = r.0; objects = r.1; id = r.2; next = r.3 }

pub create_object-IsNumbered :
    (impls : List Implementation) (c : ServerClient) (protocol object : List ℕ) (version seq : ℕ)
    → IsNumbered c
    → IsNumbered (create_object impls c protocol object version seq).0
create_object-IsNumbered impls c protocol object version seq h =
    Grows-IsNumbered c _ (created (create_object-Created impls c protocol object version seq)) h

Keeps-IsNumbered : (c c' : ServerClient) → Keeps c c' → IsNumbered c → IsNumbered c'
Keeps-IsNumbered c c' k h = Grows-IsNumbered c c' (same k.0 k.1) h

dispatch_first_poll-Keeps :
    (peer : Option ℕ) (c : ServerClient) → Keeps c (dispatch_first_poll peer c)
unfolding dispatch_first_poll
dispatch_first_poll-Keeps peer c = ground arith

pub decoded-Results {ℓ κ} :
    {A : Type ℓ} {B : Type κ} (P : B → Type 0) (m : Outcome (A × ℕ)) (n : B) (k : A → ℕ → Outcome B)
    → P n
    → ((a : A) (len : ℕ) → Results P (k a len))
    → Results P (decoded m n k)
decoded-Results P (done (a, len)) n k h j =
    elim (len == 0) as (λ b. Results P (if b then done n else k a len)) [
      | true ↦ h
      | false ↦ j a len
    ]
decoded-Results P reject n k h j = h
decoded-Results P crash n k h j = tt
decoded-Results P stuck n k h j = tt

-- An object of a numbered list is found by its number, as long as the numbers have not wrapped.
object_for_id-Numbered :
    (k : ℕ) (os : List WireObject) (i : ℕ)
    → Numbered k os
    → k + length os ≤ 2 ^ 32
    → i < length os
    → object_for_id (k + i) os ≡ get_elem? os i
unfolding object_for_id
object_for_id-Numbered k [] i h fits small = elim small [ ]
object_for_id-Numbered k (o ∷ os) zero h fits small = ground (arith, h.0)
object_for_id-Numbered k (o ∷ os) (suc i) h fits small =
    ground (arith, h.0, object_for_id-Numbered (suc k) os i h.1 (omega arith) (omega arith))

Numbered-place :
    (k : ℕ) (os : List WireObject) (i : ℕ) (o : WireObject)
    → Numbered k os
    → get_elem? os i ≡ some o
    → (i < length os) × (o.id ≡ (k + i) % 2 ^ 32)
Numbered-place k [] i o h e = cc
Numbered-place k (p ∷ os) zero o h e = ground (arith, h.0, e)
Numbered-place k (p ∷ os) (suc i) o h e = ground (arith, Numbered-place (suc k) os i o h.1 e)

-- An object is found under its own number.
pub object_for_id-own :
    (c : ServerClient) (i : ℕ) (o : WireObject)
    → IsNumbered c
    → length c.objects < 2 ^ 32
    → get_elem? c.objects i ≡ some o
    → object_for_id o.id c.objects ≡ some o
object_for_id-own c i o h fits e =
    let place = Numbered-place 1 c.objects i o h.0 e in
    let own : o.id ≡ 1 + i = ground (arith, place, fits) in
    ap (λ k. object_for_id k c.objects) own
    ∙ object_for_id-Numbered 1 c.objects i h.0 (omega arith) place.0
    ∙ e

-- Where objects are numbered from 1 in order and are fewer than 2^32, the search that onGeneric
-- makes for the number 1 + i finds the object at place i.
pub object_for_id-IsNumbered :
    (c : ServerClient) (i : ℕ)
    → IsNumbered c
    → length c.objects < 2 ^ 32
    → i < length c.objects
    → object_for_id (1 + i) c.objects ≡ get_elem? c.objects i
object_for_id-IsNumbered c i h fits small =
    object_for_id-Numbered 1 c.objects i h.0 (omega arith) small

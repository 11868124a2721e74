-- ===== src/Server/Errors.antt =====
-- What a server does with a client that breaks the protocol.
use hyprwire_debian.Base.{
  ℕ, suc, ◌+◌, ◌-◌, ◌^◌, ◌<◌, ◌≤◌, ◌≡◌, refl, arith, Bool, true, false, ◌||◌, Option, none, some,
  List, [], ◌∷◌, ◌++◌, length, lt→ltb, ◌%◌, ◌==◌, if◌then◌else◌,
}
use hyprwire_debian.Outcome.{done, peek}
use hyprwire_debian.Message.FatalError.{encode_fatal_error}
use hyprwire_debian.Message.Numbers.{encode_new_object}
use hyprwire_debian.WireObject.Spec.{Refusal, ObjectSpec, WireObject, fresh}
use hyprwire_debian.WireObject.Demarshal.{FfiType}
use hyprwire_debian.Server.State.{
  Implementation, ServerClient, log, find_impl, find_object, binds, bound,
}
use hyprwire_debian.Server.Client.{
  create_object, join_protocol, fill_object, make_object, on_bind, send_message,
}
use hyprwire_debian.Server.Parser.{parse_single_message, handle_message, parsed_error}
use hyprwire_debian.Server.Socket.{dispatch_client, after_message, drop_client, failed_text}

-- The codes of the messages that a server takes.
abbrev pub is_from_client : ℕ → Bool
is_from_client code = code == 1 || code == 3 || code == 10 || code == 100 || code == 13

module _ (describe : Refusal → List ℕ) (prep_cif : List FfiType → Bool) (peer : Option ℕ)
    (impls : List Implementation) where
  handle_message-refuses :
      (fuel : ℕ) (c : ServerClient) (code : ℕ) (rest fds : List ℕ)
      → c.error ≡ false
      → is_from_client code ≡ false
      → handle_message describe prep_cif peer impls (suc fuel) c (code ∷ rest) fds 0
        ≡ done (record c { error = true }, parsed_error)
  unfolding handle_message parse_single_message peek
  handle_message-refuses fuel c code rest fds no_error h = ground (arith, no_error, h)

  -- A buffer that begins with a code that is not one of a client's messages makes no change to a
  -- client without an error but that a fatal error is sent to it, and that its error is set.
  pub dispatch_client-refuses :
      (c : ServerClient) (code : ℕ) (rest fds : List ℕ)
      → c.error ≡ false
      → is_from_client code ≡ false
      → dispatch_client describe prep_cif peer impls c
          (record { bytes = code ∷ rest; fds = fds; bad = false })
        ≡ done (record (send_message c (encode_fatal_error none (2 ^ 32 - 1) failed_text) []) {
          error = true;
        })
  unfolding dispatch_client after_message drop_client send_message
  dispatch_client-refuses c code rest fds no_error h =
      let fuel_fits : suc (length rest) + 1 ≡ suc (suc (length rest)) = omega arith in
      rw (fuel_fits, handle_message-refuses (suc (length rest)) c code rest fds no_error h)
        (ground arith)

-- Why an object is not made: the protocol, the object of it or its version is not offered.
pub data Lacks (impls : List Implementation) (protocol object : List ℕ) (version : ℕ) : Type 0 where
  no_protocol : find_impl protocol impls ≡ none → Lacks impls protocol object version
  no_object :
      {p : Implementation}
      → find_impl protocol impls ≡ some p
      → find_object object p.protocol.objects ≡ none
      → Lacks impls protocol object version
  too_old :
      {p : Implementation}
      → find_impl protocol impls ≡ some p
      → p.protocol.spec_ver < version
      → Lacks impls protocol object version

fill_object-too_old :
    (impls : List Implementation) (c : ServerClient) (obj : WireObject) (found : Option ObjectSpec)
    (spec_ver seq : ℕ)
    → spec_ver < obj.version
    → ((fill_object impls c obj found spec_ver seq).1 ≡ none)
      × ((fill_object impls c obj found spec_ver seq).0.error ≡ true)
      × ((fill_object impls c obj found spec_ver seq).0.trace ≡ c.trace)
unfolding fill_object
fill_object-too_old impls c obj none spec_ver seq k = (refl, refl, refl)
fill_object-too_old impls c obj (some spec) spec_ver seq k =
    rw (lt→ltb spec_ver obj.version k) (refl, refl, refl)

-- createObject of a protocol or an object that is not offered, or in a version above the offered
-- one, returns no object, sends nothing, calls no one, and sets the client's error.
pub create_object-Lacks :
    (impls : List Implementation) (c : ServerClient) (protocol object : List ℕ) (version seq : ℕ)
    → Lacks impls protocol object version
    → ((create_object impls c protocol object version seq).1 ≡ none)
      × ((create_object impls c protocol object version seq).0.error ≡ true)
      × ((create_object impls c protocol object version seq).0.trace ≡ c.trace)
unfolding create_object join_protocol
create_object-Lacks impls c protocol object version seq (no_protocol h) = rw h (refl, refl, refl)
create_object-Lacks impls c protocol object version seq (no_object h k) =
    unfold fill_object in rw (h, k) (refl, refl, refl)
create_object-Lacks impls c protocol object version seq (too_old h k) =
    rw h (fill_object-too_old impls _ _ (find_object object _) _ seq k)

-- createObject of an offered protocol and object, in a version that is not above the offered one,
-- tells the client the next number, calls the object's onBind if there is one, keeps the object
-- with its protocol, version and specification, and returns it; the next number moves on, modulo
-- 2^32.
pub create_object-offered :
    (impls : List Implementation) (c : ServerClient) (protocol object : List ℕ) (version seq : ℕ)
    (p : Implementation) (spec : ObjectSpec)
    → find_impl protocol impls ≡ some p
    → find_object object p.protocol.objects ≡ some spec
    → version ≤ p.protocol.spec_ver
    → (let obj : WireObject = record fresh {
      id = c.max_id;
      version = version;
      protocol_name = protocol;
      spec = some spec;
    } in
        let told = send_message c (encode_new_object seq c.max_id) [] in
        create_object impls c protocol object version seq ≡ (
          record (if binds spec.object_name p.implementation
              then log told (bound c.max_id)
              else told) { objects = c.objects ++ obj ∷ []; max_id = (c.max_id + 1) % 2 ^ 32 },
          some obj,
        ))
unfolding create_object join_protocol fill_object make_object send_message on_bind
create_object-offered impls c protocol object version seq p spec h k le = ground (arith, h, k)

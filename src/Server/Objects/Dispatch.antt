-- ===== src/Server/Objects/Dispatch.antt =====
-- A dispatch keeps the numbers of a client's objects.
use hyprwire_debian.Base.{
  not, ◌&&◌, add64, ℕ, zero, suc, ◌+◌, ◌-◌, ◌^◌, ◌≡◌, refl, Bool, true, false, Option, none, List,
  [], ◌∷◌, map, length, ◌==◌, if◌then◌else◌, ltb,
}
use hyprwire_debian.Outcome.{Outcome, done, reject, crash, stuck, ◌>>=◌}
use hyprwire_debian.Outcome.Results.{Results, Results->>=, Results-done, Results-if, Results-option}
use hyprwire_debian.WireObject.Spec.{methods_in, WireObject, Refusal, is_empty}
use hyprwire_debian.WireObject.Demarshal.{
  called, FfiType, Called, ignored, refused, failed, invoked,
}
use hyprwire_debian.Message.Hello.{parse_hello}
use hyprwire_debian.Message.Handshake.{
  encode_handshake_begin, encode_handshake_protocols, parse_handshake_ack,
}
use hyprwire_debian.Message.BindProtocol.{parse_bind_protocol}
use hyprwire_debian.Message.Numbers.{encode_roundtrip_done, parse_roundtrip_request}
use hyprwire_debian.Message.FatalError.{encode_fatal_error}
use hyprwire_debian.Message.Generic.{Generic, parse_generic}
use hyprwire_debian.Server.State.{Implementation, ServerClient, object_for_id}
use hyprwire_debian.Server.Client.{
  create_object, send_message, dispatch_first_poll, object_error, after_called, call_object,
  on_generic,
}
use hyprwire_debian.Server.Parser.{
  protocol_ver, protocol_text, Parsed, Result, parsed_ok, parsed_error, parsed_stray_fds,
  parse_single_message, on_hello, on_ack, on_bind_message, on_generic_message, on_roundtrip_request,
  handle_message,
}
use hyprwire_debian.Server.Socket.{
  invalid_text, failed_text, RawMessage, dispatch_client, after_message, answer_roundtrip,
  drop_client,
}
use hyprwire_debian.Server.Objects.{
  IsNumbered, Keeps, Keeps-IsNumbered, send_message-Keeps, dispatch_first_poll-Keeps,
  create_object-IsNumbered, decoded-Results,
}

-- The parse result whose client is numbered.
abbrev Parses : Parsed → Type 0
Parses r = IsNumbered r.0

module _ (describe : Refusal → List ℕ) (prep_cif : List FfiType → Bool) (peer : Option ℕ)
    (impls : List Implementation) where
  after_called-Keeps :
      (c : ServerClient) (obj : WireObject) (method : ℕ) (r : Called)
      → Keeps c (after_called describe prep_cif c obj method r)
  unfolding after_called object_error
  after_called-Keeps c obj method ignored = (refl, refl)
  after_called-Keeps c obj method (refused r) = send_message-Keeps c _ _
  after_called-Keeps c obj method failed = (refl, refl)
  after_called-Keeps c obj method (invoked args) = (refl, refl)

  on_generic-Results :
      (c : ServerClient) (msg : Generic)
      → IsNumbered c
      → Results IsNumbered (on_generic describe prep_cif c msg)
  unfolding on_generic call_object
  on_generic-Results c msg h =
      Results-option IsNumbered (object_for_id msg.object c.objects) (done c) _ h (λ obj.
        Results-option IsNumbered obj.spec crash _ tt (λ spec.
          Results->>= IsNumbered
            (called prep_cif (msg.span_size + 1) (methods_in true spec) obj msg.method
              (record { mem = msg.span; size = msg.span_size }) msg.fds)
            (λ r. done (after_called describe prep_cif c obj msg.method r))
            (λ r.
              Keeps-IsNumbered c (after_called describe prep_cif c obj msg.method r)
                (after_called-Keeps c obj msg.method r) h)))

  on_hello-Results :
      (c : ServerClient) (bytes fds : List ℕ) (off : ℕ)
      → IsNumbered c
      → Results Parses (on_hello peer c bytes fds off)
  unfolding on_hello
  on_hello-Results c bytes fds off h =
      let polled = dispatch_first_poll peer c in
      let greeted = send_message polled (encode_handshake_begin (protocol_ver ∷ [])) [] in
      decoded-Results Parses (do len ← parse_hello bytes off; done (tt {0}, len)) (c, fds, 0)
        (λ _ len. done (greeted, fds, len)) h
        (λ _ len.
          Keeps-IsNumbered polled greeted (send_message-Keeps polled _ [])
            (Keeps-IsNumbered c polled (dispatch_first_poll-Keeps peer c) h))

  on_ack-Results :
      (c : ServerClient) (bytes fds : List ℕ) (off : ℕ)
      → IsNumbered c
      → Results Parses (on_ack impls c bytes fds off)
  unfolding on_ack
  on_ack-Results c bytes fds off h =
      let answered : ℕ → ServerClient = λ version.
        send_message (record c { version = version })
          (encode_handshake_protocols (map protocol_text impls)) [] in
      decoded-Results Parses (parse_handshake_ack bytes off) (c, fds, 0)
        (λ version len. done (answered version, fds, len)) h
        (λ version len.
          Keeps-IsNumbered c (answered version)
            (send_message-Keeps (record c { version = version }) _ []) h)

  on_bind_message-Results :
      (c : ServerClient) (bytes fds : List ℕ) (off : ℕ)
      → IsNumbered c
      → Results Parses (on_bind_message impls c bytes fds off)
  unfolding on_bind_message
  on_bind_message-Results c bytes fds off h =
      decoded-Results Parses (parse_bind_protocol bytes off) (c, fds, 0)
        (λ msg len. done ((create_object impls c msg.protocol [] msg.version msg.seq).0, fds, len))
        h (λ msg len. create_object-IsNumbered impls c msg.protocol [] msg.version msg.seq h)

  on_roundtrip_request-Results :
      (c : ServerClient) (bytes fds : List ℕ) (off : ℕ)
      → IsNumbered c
      → Results Parses (on_roundtrip_request c bytes fds off)
  unfolding on_roundtrip_request
  on_roundtrip_request-Results c bytes fds off h =
      decoded-Results Parses (parse_roundtrip_request bytes off) (c, fds, 0)
        (λ seq len. done (record c { scheduled_roundtrip_seq = seq }, fds, len)) h (λ seq len. h)

  on_generic_message-Results :
      (c : ServerClient) (bytes fds : List ℕ) (off : ℕ)
      → IsNumbered c
      → Results Parses (on_generic_message describe prep_cif peer impls c bytes fds off)
  unfolding on_generic_message
  on_generic_message-Results c bytes fds off h =
      let finish_call : Generic × List ℕ → ℕ → Outcome Parsed =
        λ msg len. (do c' ← on_generic describe prep_cif c msg.0; done (c', msg.1, len)) in
      decoded-Results {A = Generic × List ℕ} Parses
        (do
          (msg, len, left) ← parse_generic (length bytes + 1) bytes fds off
          done ((msg, left), len))
        (c, fds, 0) finish_call h
        (λ msg len.
          after_generic (on_generic describe prep_cif c msg.0) msg.1 len
            (on_generic-Results c msg.0 h))
    where
      after_generic :
          (o : Outcome ServerClient) (left : List ℕ) (len : ℕ)
          → Results IsNumbered o
          → Results Parses (o >>= λ c'. done (c', left, len))
      after_generic (done c') left len h = h
      after_generic reject left len h = tt
      after_generic crash left len h = tt
      after_generic stuck left len h = tt

  parse_single_message-Results :
      (c : ServerClient) (bytes fds : List ℕ) (off : ℕ)
      → IsNumbered c
      → Results Parses (parse_single_message describe prep_cif peer impls c bytes fds off)
  unfolding parse_single_message
  parse_single_message-Results c bytes fds off h =
      search
        (
          Results->>=, Results-if, on_hello-Results, on_ack-Results, on_bind_message-Results,
          on_generic_message-Results, on_roundtrip_request-Results, h,
        )
        depth 9

  handle_message-Results :
      (fuel : ℕ) (c : ServerClient) (bytes fds : List ℕ) (needle : ℕ)
      → IsNumbered c
      → Results
          (λ r. IsNumbered r.0)
          (handle_message describe prep_cif peer impls fuel c bytes fds needle)
  unfolding handle_message
  handle_message-Results zero c bytes fds needle h = tt
  handle_message-Results (suc fuel) c bytes fds needle h =
      elim (ltb needle (length bytes) && not c.error)
        as (λ b. Results (λ r. IsNumbered r.0) (loop_on b)) [
          | true ↦
              after_one (parse_single_message describe prep_cif peer impls c bytes fds needle)
                (parse_single_message-Results c bytes fds needle h)
                (λ c' fds' n k. handle_message-Results fuel c' bytes fds' n k)
          | false ↦ h
        ]
    where
      go_on : Parsed → Outcome (ServerClient × Result)
      go_on (c', fds', ret) = elim (ret == 0) [
        | true ↦ done (c', parsed_error)
        | false ↦ handle_message describe prep_cif peer impls fuel c' bytes fds' (add64 needle ret)
      ]

      loop_on : Bool → Outcome (ServerClient × Result)
      loop_on b = elim b [
        | false ↦ done (c, if is_empty fds then parsed_ok else parsed_stray_fds)
        | true ↦ parse_single_message describe prep_cif peer impls c bytes fds needle >>= go_on
      ]

      after_one :
          (o : Outcome Parsed)
          → Results Parses o
          → ((c' : ServerClient) (fds' : List ℕ) (n : ℕ)
              → IsNumbered c'
              → Results
                  (λ r. IsNumbered r.0)
                  (handle_message describe prep_cif peer impls fuel c' bytes fds' n))
          → Results (λ r. IsNumbered r.0) (o >>= go_on)
      after_one (done (c', fds', ret)) k again =
          elim (ret == 0)
            as (λ b.
              Results (λ r. IsNumbered r.0)
                (elim b [
                  | true ↦ done (c', parsed_error)
                  | false ↦
                      handle_message describe prep_cif peer impls fuel c' bytes fds'
                        (add64 needle ret)
                ])) [ true ↦ k | false ↦ again c' fds' (add64 needle ret) k ]
      after_one reject k again = tt
      after_one crash k again = tt
      after_one stuck k again = tt

  after_message-Keeps : (c : ServerClient) (r : Result) → Keeps c (after_message c r)
  unfolding after_message drop_client answer_roundtrip
  after_message-Keeps c parsed_ok =
      elim (ltb 0 c.scheduled_roundtrip_seq)
        as (λ b. Keeps c (
          if b
          then record (send_message c (encode_roundtrip_done c.scheduled_roundtrip_seq) []) {
            scheduled_roundtrip_seq = 0;
          }
          else c)) [
            | true ↦ send_message-Keeps c (encode_roundtrip_done c.scheduled_roundtrip_seq) []
            | false ↦ (refl, refl)
          ]
  after_message-Keeps c parsed_error =
      send_message-Keeps c (encode_fatal_error none (2 ^ 32 - 1) failed_text) []
  after_message-Keeps c parsed_stray_fds =
      send_message-Keeps c (encode_fatal_error none (2 ^ 32 - 1) failed_text) []

  -- Whatever bytes and descriptors arrive, if a client's objects are numbered from 1 in the order
  -- in which they were made, modulo 2^32, with the next number next, they still are after a
  -- dispatch that returns.
  pub dispatch_client-IsNumbered :
      (c : ServerClient) (raw : RawMessage) (c' : ServerClient)
      → IsNumbered c
      → dispatch_client describe prep_cif peer impls c raw ≡ done c'
      → IsNumbered c'
  unfolding dispatch_client drop_client
  dispatch_client-IsNumbered c raw c' h e =
      let run =
        handle_message describe prep_cif peer impls (length raw.bytes + 1) c raw.bytes raw.fds 0 in
      Results-done IsNumbered (dispatch_client describe prep_cif peer impls c raw) c'
        (Results-if IsNumbered raw.bad (done (drop_client c invalid_text)) _
          (Keeps-IsNumbered c (drop_client c invalid_text) (send_message-Keeps c _ []) h)
          (Results-if IsNumbered (is_empty raw.bytes) (done c)
            (run >>= λ r. done (after_message r.0 r.1)) h
            (after_run run
              (handle_message-Results (length raw.bytes + 1) c raw.bytes raw.fds 0 h))))
        e
    where
      after_run :
          (o : Outcome (ServerClient × Result))
          → Results (λ r. IsNumbered r.0) o
          → Results IsNumbered (o >>= λ r. done (after_message r.0 r.1))
      after_run (done (c1, r)) k =
          Keeps-IsNumbered c1 (after_message c1 r) (after_message-Keeps c1 r) k
      after_run reject k = tt
      after_run crash k = tt
      after_run stuck k = tt

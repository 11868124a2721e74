-- ===== src/Client/Objects/Dispatch.antt =====
-- A dispatch keeps the sequence numbers of a client's objects.
use hyprwire_debian.Base.{
  ℕ, zero, suc, ◌+◌, ◌≡◌, refl, arith, Bool, true, false, not, ◌&&◌, Option, none, some, List, [],
  ◌∷◌, ◌++◌, length, ltb, ◌==◌, if◌then◌else◌, add64,
}
use hyprwire_debian.Outcome.{Outcome, done, reject, crash, stuck, ◌>>=◌}
use hyprwire_debian.Outcome.Results.{
  Results, Results->>=, Results-if, Results-option, Results-elim, Results-bind, Results-map,
}
use hyprwire_debian.WireObject.Spec.{methods_in, WireObject, Refusal, is_empty}
use hyprwire_debian.WireObject.Demarshal.{
  called, FfiType, Called, ignored, refused, failed, invoked,
}
use hyprwire_debian.Message.Handshake.{
  encode_handshake_ack, parse_handshake_begin, parse_handshake_protocols,
}
use hyprwire_debian.Message.Numbers.{parse_new_object, parse_roundtrip_done}
use hyprwire_debian.Message.FatalError.{FatalError, parse_fatal_error}
use hyprwire_debian.Message.Generic.{Generic, parse_generic}
use hyprwire_debian.Server.Objects.{decoded-Results}
use hyprwire_debian.Server.Parser.{Result, parsed_ok, parsed_error, parsed_stray_fds, protocol_ver}
use hyprwire_debian.Client.State.{ClientSocket, Pending, object_for_id, object_for_seq}
use hyprwire_debian.Client.Operations.{
  send_message, disconnect_on_error, server_spec, add_specs, server_specs, object_error,
  after_called, call_object, on_generic,
}
use hyprwire_debian.Client.Parser.{
  Parsed, contains, on_begin, on_protocols, on_new_object, fatal_parsed, on_fatal_error,
  on_roundtrip_done, is_client_message, refuse_message, on_generic_message, parse_single_message,
  handle_message,
}
use hyprwire_debian.Client.Dispatch.{
  resolve_seq, flush, flush_pending, Polled, after_message, dispatch_events,
}
use hyprwire_debian.Client.Objects.{Keeps, Keeps-trans, on_seq-Keeps, send_message-Keeps}

add_specs-Keeps : (ss : List (List ℕ)) (c : ClientSocket) → Keeps c (add_specs c ss)
unfolding add_specs disconnect_on_error
add_specs-Keeps [] c = (refl, refl)
add_specs-Keeps (s ∷ ss) c = split (server_spec s) (add_specs-Keeps ss)
  where
    split :
        (m : Outcome (List ℕ × ℕ))
        → ((d : ClientSocket) → Keeps d (add_specs d ss))
        → Keeps c (elim m [
          | done spec ↦ add_specs (record c { server_specs = c.server_specs ++ spec ∷ [] }) ss
          | _ ↦ disconnect_on_error c
        ])
    split (done spec) ih = ih (record c { server_specs = c.server_specs ++ spec ∷ [] })
    split reject ih = (refl, refl)
    split crash ih = (refl, refl)
    split stuck ih = (refl, refl)

flush-Keeps : (ps : List Pending) (c : ClientSocket) → Keeps c (flush c ps).0
unfolding flush
flush-Keeps [] c = (refl, refl)
flush-Keeps (p ∷ ps) c = split (object_for_seq p.depends_on_seq c.objects) (flush-Keeps ps) refl
  where
    split :
        (m : Option WireObject)
        → ((d : ClientSocket) → Keeps d (flush d ps).0)
        → object_for_seq p.depends_on_seq c.objects ≡ m
        → Keeps c (flush c (p ∷ ps)).0
    split none ih e = ground (arith, e, ih c)
    split (some o) ih e =
        let sent : ClientSocket = send_message c (resolve_seq o.id p.bytes) p.fds in
        ground (
          arith,
          e,
          ih c,
          ih sent,
          Keeps-trans c sent (flush sent ps).0
              (send_message-Keeps c (resolve_seq o.id p.bytes) p.fds) (ih sent),
        )

pub flush_pending-Keeps : (c : ClientSocket) → Keeps c (flush_pending c)
unfolding flush_pending
flush_pending-Keeps c = flush-Keeps c.pending_outgoing c

after_message-Keeps : (c : ClientSocket) (r : Result) → Keeps c (after_message c r).0
unfolding after_message flush_pending disconnect_on_error
after_message-Keeps c parsed_ok = flush-Keeps c.pending_outgoing c
after_message-Keeps c parsed_error = (refl, refl)
after_message-Keeps c parsed_stray_fds = (refl, refl)

-- A result whose socket keeps the numbers of `c`.
abbrev Parses : ClientSocket → Parsed → Type 0
Parses c r = Keeps c r.0

abbrev pub Sockets : ClientSocket → ClientSocket × Bool → Type 0
Sockets c r = Keeps c r.0

module _ (describe : Refusal → List ℕ) (prep_cif : List FfiType → Bool) where
  after_called-Keeps :
      (c : ClientSocket) (obj : WireObject) (method : ℕ) (r : Called)
      → Keeps c (after_called describe prep_cif c obj method r)
  unfolding after_called object_error
  after_called-Keeps c obj method ignored = (refl, refl)
  after_called-Keeps c obj method (refused r) = (refl, refl)
  after_called-Keeps c obj method failed = (refl, refl)
  after_called-Keeps c obj method (invoked args) = (refl, refl)

  on_generic-Results :
      (c : ClientSocket) (msg : Generic) → Results (Keeps c) (on_generic describe prep_cif c msg)
  unfolding on_generic call_object
  on_generic-Results c msg =
      Results-option (Keeps c) (object_for_id msg.object c.objects) (done c) _ (refl, refl)
        (λ obj. Results-option (Keeps c) obj.spec crash _ tt (λ spec.
          Results->>= (Keeps c)
            (called prep_cif (msg.span_size + 1) (methods_in false spec) obj msg.method
              (record { mem = msg.span; size = msg.span_size }) msg.fds)
            (λ r. done (after_called describe prep_cif c obj msg.method r))
            (λ r. after_called-Keeps c obj msg.method r)))

  on_begin-Results :
      (c : ClientSocket) (bytes fds : List ℕ) (off : ℕ)
      → Results (Parses c) (on_begin c bytes fds off)
  unfolding on_begin
  on_begin-Results c bytes fds off =
      decoded-Results (Parses c) (parse_handshake_begin bytes off) (c, fds, 0) _ (refl, refl)
        (λ versions len.
          elim (contains protocol_ver versions)
            as (λ b. Parses c (
              if b
              then (send_message c (encode_handshake_ack protocol_ver) [], fds, len)
              else (c, fds, 0))) [
                | true ↦ send_message-Keeps c (encode_handshake_ack protocol_ver) []
                | false ↦ (refl, refl)
              ])

  on_protocols-Results :
      (c : ClientSocket) (bytes fds : List ℕ) (off : ℕ)
      → Results (Parses c) (on_protocols c bytes fds off)
  unfolding on_protocols server_specs
  on_protocols-Results c bytes fds off =
      decoded-Results (Parses c) (parse_handshake_protocols bytes off) (c, fds, 0) _ (refl, refl)
        (λ texts len. add_specs-Keeps texts c)

  on_new_object-Results :
      (c : ClientSocket) (bytes fds : List ℕ) (off : ℕ)
      → Results (Parses c) (on_new_object c bytes fds off)
  unfolding on_new_object
  on_new_object-Results c bytes fds off =
      decoded-Results (Parses c) (parse_new_object bytes off) (c, fds, 0) _ (refl, refl)
        (λ msg len. on_seq-Keeps c msg.seq msg.id)

  on_fatal_error-Results :
      (c : ClientSocket) (bytes fds : List ℕ) (off : ℕ)
      → Results (Parses c) (on_fatal_error c bytes fds off)
  unfolding on_fatal_error
  on_fatal_error-Results c bytes fds off = set (parse_fatal_error bytes off)
    where
      set : (o : Outcome (FatalError × ℕ)) → Results (Parses c) (fatal_parsed c fds o)
      set (done (msg, len)) = (refl, refl)
      set reject = (refl, refl)
      set crash = tt
      set stuck = tt

  on_roundtrip_done-Results :
      (c : ClientSocket) (bytes fds : List ℕ) (off : ℕ)
      → Results (Parses c) (on_roundtrip_done c bytes fds off)
  unfolding on_roundtrip_done
  on_roundtrip_done-Results c bytes fds off =
      decoded-Results (Parses c) (parse_roundtrip_done bytes off) (c, fds, 0) _ (refl, refl)
        (λ seq len. (refl, refl))

  on_generic_message-Results :
      (c : ClientSocket) (bytes fds : List ℕ) (off : ℕ)
      → Results (Parses c) (on_generic_message describe prep_cif c bytes fds off)
  unfolding on_generic_message
  on_generic_message-Results c bytes fds off =
      decoded-Results {A = Generic × List ℕ} (Parses c)
        (do
          (msg, len, left) ← parse_generic (length bytes + 1) bytes fds off
          done ((msg, left), len))
        (c, fds, 0) _ (refl, refl)
        (λ msg len.
          Results-bind (Keeps c) (Parses c) (on_generic describe prep_cif c msg.0)
            (λ c'. done (c', msg.1, len)) (on_generic-Results c msg.0) (λ c' k. k))

  refuse_message-Results :
      (c : ClientSocket) (code : ℕ) (fds : List ℕ)
      → Results (Parses c) (done (refuse_message c code fds))
  refuse_message-Results c code fds =
      elim (is_client_message code) as (λ b. Keeps c (if b then record c { error = true } else c)) [
        | true ↦ (refl, refl)
        | false ↦ (refl, refl)
      ]

  parse_single_message-Results :
      (c : ClientSocket) (bytes fds : List ℕ) (off : ℕ)
      → Results (Parses c) (parse_single_message describe prep_cif c bytes fds off)
  unfolding parse_single_message
  parse_single_message-Results c bytes fds off =
      search
        (
          Results->>=, Results-if, on_begin-Results, on_protocols-Results, on_new_object-Results,
          on_generic_message-Results, on_fatal_error-Results, on_roundtrip_done-Results,
          refuse_message-Results,
        )
        depth 9

  handle_message-Results :
      (fuel : ℕ) (c : ClientSocket) (bytes fds : List ℕ) (needle : ℕ)
      → Results (λ r. Keeps c r.0) (handle_message describe prep_cif fuel c bytes fds needle)
  unfolding handle_message
  handle_message-Results zero c bytes fds needle = tt
  handle_message-Results (suc fuel) c bytes fds needle =
      Results-elim (λ r. Keeps c r.0) (ltb needle (length bytes)) _ _
        (Results-bind (Parses c) (λ r. Keeps c r.0)
          (parse_single_message describe prep_cif c bytes fds needle) _
          (parse_single_message-Results c bytes fds needle)
          (λ r k.
            Results-elim (λ q. Keeps c q.0) (r.2 == 0) (done (r.0, parsed_error)) _ k
              (Results-map (λ q. Keeps r.0 q.0) (λ q. Keeps c q.0) _ (λ q. Keeps-trans c r.0 q.0 k)
                (handle_message-Results fuel r.0 bytes r.1 (add64 needle r.2)))))
        (refl, refl)

  pub dispatch_events-Results :
      (c : ClientSocket) (p : Polled) → Results (Sockets c) (dispatch_events describe prep_cif c p)
  unfolding dispatch_events disconnect_on_error
  dispatch_events-Results c p =
      let bytes = p.raw.bytes in
      Results-if (Sockets c) c.error (done (c, false)) _ (refl, refl)
        (Results-if (Sockets c) (not c.handshake_done && p.timed_out)
          (done (disconnect_on_error c, false)) _ (refl, refl)
          (Results-if (Sockets c) p.pollhup (done (c, false)) _ (refl, refl)
            (Results-if (Sockets c) (not p.pollin) (done (c, true)) _ (refl, refl)
              (Results-if (Sockets c) p.raw.bad (done (disconnect_on_error c, false)) _ (refl, refl)
                (Results-if (Sockets c) (is_empty bytes) (done (c, false)) _ (refl, refl)
                  (Results-bind (λ r. Keeps c r.0) (Sockets c)
                    (handle_message describe prep_cif (length bytes + 1) c bytes p.raw.fds 0) _
                    (handle_message-Results (length bytes + 1) c bytes p.raw.fds 0)
                    (λ r k.
                      Keeps-trans c r.0 (after_message r.0 r.1).0 k
                        (after_message-Keeps r.0 r.1))))))))

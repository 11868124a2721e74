-- ===== src/Client/Dispatch.antt =====
-- What a client's program calls: dispatchEvents, the loops that wait (src/core/client/ClientSocket.cpp)
-- and a call of an object (src/core/wireObject/IWireObject.cpp).
use hyprwire_debian.Base.{
  ℕ, ◌+◌, ◌%◌, ◌^◌, Bool, true, false, not, ◌&&◌, none, some, List, [], ◌∷◌, ◌++◌, ltb, ◌==◌,
  if◌then◌else◌, length,
}
use hyprwire_debian.Outcome.{Outcome, done, reject, crash, stuck, ◌>>=◌}
use hyprwire_debian.Message.Numbers.{encode_roundtrip_request}
use hyprwire_debian.WireObject.Spec.{
  Method, ObjectSpec, WireObject, Refusal, invalid_method, get_elem?, is_empty, methods_out,
}
use hyprwire_debian.WireObject.Demarshal.{FfiType}
use hyprwire_debian.WireObject.Marshal.{VaArg, Call, refused, message, call}
use hyprwire_debian.Server.Parser.{Result, parsed_ok, parsed_error, parsed_stray_fds}
use hyprwire_debian.Server.Socket.{RawMessage}
use hyprwire_debian.Client.State.{Pending, ClientSocket, object_for_seq}
use hyprwire_debian.Client.Operations.{send_message, disconnect_on_error, make_object, object_error}
use hyprwire_debian.Client.Parser.{handle_message}

-- CGenericProtocolMessage::resolveSeq: a single byte of the four is written, the assignment being
-- to `m_data[2]`.
unfoldable pub resolve_seq : ℕ → List ℕ → List ℕ
resolve_seq id (a ∷ b ∷ _ ∷ rest) = a ∷ b ∷ id % 256 ∷ rest
resolve_seq id bytes = bytes

-- The `erase_if` over m_pendingOutgoing: the socket after what was sent, and the messages that stay.
unfoldable pub flush : ClientSocket → List Pending → ClientSocket × List Pending
unfolding resolve_seq object_for_seq
flush c [] = (c, [])
flush c (p ∷ ps) = elim (object_for_seq p.depends_on_seq c.objects) [
  | none ↦ flush c ps
  | some o ↦ elim (o.id == 0) [
    | true ↦ let r = flush c ps in (r.0, p ∷ r.1)
    | false ↦ flush (send_message c (resolve_seq o.id p.bytes) p.fds) ps
  ]
]

unfoldable pub flush_pending : ClientSocket → ClientSocket
unfolding flush
flush_pending c = let r = flush c c.pending_outgoing in record (r.0) { pending_outgoing = r.1 }

-- What one `poll` finds: whether it timed out while it was to block, POLLHUP, POLLIN, and what
-- there is to read.
pub record Polled : Type 0 where
  pub timed_out : Bool
  pub pollhup : Bool
  pub pollin : Bool
  pub raw : RawMessage

-- The end of dispatchEvents, after a batch.
unfoldable pub after_message : ClientSocket → Result → ClientSocket × Bool
unfolding flush_pending disconnect_on_error
after_message c parsed_ok = let c' = flush_pending c in (c', not c'.error)
after_message c parsed_error = (disconnect_on_error c, false)
after_message c parsed_stray_fds = (disconnect_on_error c, false)

-- What a loop that waits comes to: it returns, or there is nothing left of what happens.
pub data Wait : Type 0 where
  returned : ClientSocket → Bool → Wait
  waiting : ClientSocket → Wait

module _ (describe : Refusal → List ℕ) (prep_cif : List FfiType → Bool) where
  -- CClientSocket::dispatchEvents
  unfoldable pub dispatch_events : ClientSocket → Polled → Outcome (ClientSocket × Bool)
  unfolding after_message
  dispatch_events c p =
      if c.error
      then done (c, false)
      else if not c.handshake_done && p.timed_out
      then done (disconnect_on_error c, false)
      else if p.pollhup
      then done (c, false)
      else if not p.pollin
      then done (c, true)
      else if p.raw.bad
      then done (disconnect_on_error c, false)
      else if is_empty p.raw.bytes
      then done (c, false)
      else (do
        (c', r) ←
            handle_message describe prep_cif (length p.raw.bytes + 1) c p.raw.bytes p.raw.fds 0
        done (after_message c' r))

  -- CClientSocket::waitForHandshake, on what happens while it waits.
  unfoldable pub wait_for_handshake : ClientSocket → List Polled → Outcome Wait
  unfolding dispatch_events
  wait_for_handshake c [] =
      if not c.error && not c.handshake_done
      then done (waiting c)
      else done (returned c (not c.error))
  wait_for_handshake c (p ∷ ps) = elim (not c.error && not c.handshake_done) [
    | false ↦ done (returned c (not c.error))
    | true ↦ do
      (c', ok) ← dispatch_events c p
      elim ok [ true ↦ wait_for_handshake c' ps | false ↦ done (returned c' false) ]
  ]

  abbrev pub has_id : ClientSocket → ℕ → Bool
  has_id c i = elim (get_elem? c.objects i) [ none ↦ true | some o ↦ not (o.id == 0) ]

  -- CClientSocket::waitForObject, of the object that stands at place `i`; it does not look at what
  -- dispatchEvents returns.
  unfoldable pub wait_for_object : ClientSocket → ℕ → List Polled → Outcome Wait
  unfolding dispatch_events
  wait_for_object c i [] =
      if not (has_id c i) && not c.error then done (waiting c) else done (returned c true)
  wait_for_object c i (p ∷ ps) = elim (not (has_id c i) && not c.error) [
    | false ↦ done (returned c true)
    | true ↦ do (c', ok) ← dispatch_events c p; wait_for_object c' i ps
  ]

  -- The loop of CClientSocket::roundtrip for the number `seq`.
  unfoldable pub wait_for_roundtrip : ClientSocket → ℕ → List Polled → Outcome Wait
  unfolding dispatch_events
  wait_for_roundtrip c seq [] =
      if ltb c.last_ackd_roundtrip_seq seq then done (waiting c) else done (returned c true)
  wait_for_roundtrip c seq (p ∷ ps) = elim (ltb c.last_ackd_roundtrip_seq seq) [
    | false ↦ done (returned c true)
    | true ↦ do
      (c', ok) ← dispatch_events c p
      elim ok [ true ↦ wait_for_roundtrip c' seq ps | false ↦ done (returned c' false) ]
  ]

  -- CClientSocket::roundtrip
  unfoldable pub roundtrip : ClientSocket → List Polled → Outcome Wait
  unfolding wait_for_roundtrip
  roundtrip c ps =
      if c.error
      then done (returned c false)
      else (let seq = (c.last_sent_roundtrip_seq + 1) % 2 ^ 32 in
          wait_for_roundtrip
            (send_message (record c { last_sent_roundtrip_seq = seq })
              (encode_roundtrip_request seq) [])
            seq ps)

-- The end of IWireObject::call for a client's object, with what `call` made: the message waits for
-- the object's number or is sent, and the object that will answer is made.
unfoldable pub send_call : ClientSocket → WireObject → List ℕ → List ℕ → ClientSocket
send_call c obj bytes fds =
    if obj.id == 0
    then record c {
      pending_outgoing =
          c.pending_outgoing ++ record { bytes = bytes; fds = fds; depends_on_seq = obj.seq } ∷ [];
    }
    else send_message c bytes fds

unfoldable pub after_call :
    (Refusal → List ℕ) → ClientSocket → WireObject → Method → Call → ClientSocket × ℕ
unfolding send_call
after_call describe c obj method (refused r) = (object_error c obj.id obj.id (describe r), 0)
after_call describe c obj method (message bytes fds ret) =
    let c' = send_call c obj bytes fds in
    if ret == 0
    then (c', 0)
    else ((make_object c' obj.protocol_name method.returns_type ret).0, ret)

-- `++m_seq`, for a method that returns an object.
unfoldable pub count_seq : ClientSocket → Method → ClientSocket
count_seq c method =
    if is_empty method.returns_type then c else record c { seq = (c.seq + 1) % 2 ^ 32 }

abbrev pub finish_call :
    (Refusal → List ℕ)
    → ClientSocket
    → WireObject
    → Method
    → Outcome Call
    → Outcome (ClientSocket × ℕ)
finish_call describe c obj method (done r) = done (after_call describe c obj method r)
finish_call describe c obj method reject = done (record c { error = true }, 0)
finish_call describe c obj method crash = crash
finish_call describe c obj method stuck = stuck

-- IWireObject::call of a client's object, whose specification is `spec`.
unfoldable pub call_object :
    (Refusal → List ℕ)
    → ClientSocket
    → WireObject
    → ObjectSpec
    → ℕ
    → List VaArg
    → Outcome (ClientSocket × ℕ)
unfolding after_call count_seq
call_object describe c obj spec id va =
    let made = call false (methods_out false spec) obj id va ((c.seq + 1) % 2 ^ 32) in
    elim (get_elem? (methods_out false spec) id) [
      | none ↦ done (object_error c obj.id obj.id (describe (invalid_method id obj.id)), 0)
      | some method ↦
          if ltb obj.version method.since
          then finish_call describe c obj method made
          else finish_call describe (count_seq c method) obj method made
    ]

-- ===== src/Client/Hangups.antt =====
-- A server that hangs up while a client waits (src/core/client/ClientSocket.cpp).
use hyprwire_debian.Base.{
  ℕ, ◌<◌, ◌≡◌, arith, Bool, true, false, ◌||◌, ◌&&◌, not, List, [], ◌∷◌, All,
}
use hyprwire_debian.Outcome.{done}
use hyprwire_debian.WireObject.Spec.{Refusal, is_empty}
use hyprwire_debian.WireObject.Demarshal.{FfiType}
use hyprwire_debian.Client.State.{ClientSocket}
use hyprwire_debian.Client.Dispatch.{
  Polled, has_id, returned, waiting, dispatch_events, wait_for_handshake, wait_for_object,
  wait_for_roundtrip,
}

-- What `poll` finds once the server has hung up: POLLHUP, or POLLIN with nothing to read.
abbrev pub is_hangup : Polled → Bool
is_hangup p =
    not p.timed_out && (p.pollhup || (p.pollin && (not p.raw.bad && is_empty p.raw.bytes)))

abbrev pub IsHangup : Polled → Type 0
IsHangup p = is_hangup p ≡ true

module _ (describe : Refusal → List ℕ) (prep_cif : List FfiType → Bool) where
  -- A hangup is not an error of the client.
  dispatch_events-hangup :
      (c : ClientSocket) (p : Polled)
      → IsHangup p
      → dispatch_events describe prep_cif c p ≡ done (c, false)
  unfolding dispatch_events
  dispatch_events-hangup c p h = ground (arith, h)

  wait_for_object-hangup :
      (c : ClientSocket) (i : ℕ) (ps : List Polled)
      → c.error ≡ false
      → has_id describe prep_cif c i ≡ false
      → All IsHangup ps
      → wait_for_object describe prep_cif c i ps ≡ done (waiting c)
  unfolding wait_for_object
  wait_for_object-hangup c i [] no_error no_id h = ground (arith, no_error, no_id)
  wait_for_object-hangup c i (p ∷ ps) no_error no_id h = ground (
    arith,
    no_error,
    no_id,
    dispatch_events-hangup c p h.0,
    wait_for_object-hangup c i ps no_error no_id h.1,
  )

  -- When all that poll finds, without a timeout, is POLLHUP, or POLLIN with nothing to read,
  -- waitForHandshake of a client without an error or a handshake and the loop of roundtrip on a
  -- client that waits for an answer return false at the first, but waitForObject of a client
  -- without an error, for an object without a number, still waits after any number of them.
  pub waits-hangup :
      (shaking c : ClientSocket) (i seq : ℕ) (p : Polled) (ps : List Polled)
      → shaking.error ≡ false
      → shaking.handshake_done ≡ false
      → c.error ≡ false
      → has_id describe prep_cif c i ≡ false
      → c.last_ackd_roundtrip_seq < seq
      → All IsHangup (p ∷ ps)
      → (wait_for_handshake describe prep_cif shaking (p ∷ ps) ≡ done (returned shaking false))
        × (wait_for_roundtrip describe prep_cif c seq (p ∷ ps) ≡ done (returned c false))
        × (wait_for_object describe prep_cif c i (p ∷ ps) ≡ done (waiting c))
  unfolding wait_for_handshake wait_for_roundtrip
  waits-hangup shaking c i seq p ps s_no_error s_shaking no_error no_id behind h = (
    ground (arith, s_no_error, s_shaking, dispatch_events-hangup shaking p h.0),
    ground (arith, behind, dispatch_events-hangup c p h.0),
    wait_for_object-hangup c i (p ∷ ps) no_error no_id h,
  )

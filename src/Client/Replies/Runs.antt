-- ===== src/Client/Replies/Runs.antt =====
-- All that a server wrote, in one buffer.
use hyprwire_debian.Base.{
  ℕ, zero, suc, ◌+◌, ◌^◌, ◌<◌, ◌≤◌, ◌≡◌, refl, ap, arith, Bool, true, false, not, List, [], ◌∷◌,
  All, length, length-append, length-drop, drop, drop-append, add64_lem,
}
use hyprwire_debian.Outcome.{done}
use hyprwire_debian.Message.Handshake.{encode_handshake_begin, encode_handshake_protocols}
use hyprwire_debian.Message.FatalError.{encode_fatal_error}
use hyprwire_debian.Message.Numbers.{encode_new_object, encode_roundtrip_done}
use hyprwire_debian.Message.Generic.Args.{generic_bytes}
use hyprwire_debian.WireObject.Spec.{Refusal, is_empty-pos}
use hyprwire_debian.WireObject.Demarshal.{FfiType}
use hyprwire_debian.Server.Parser.{parsed_ok}
use hyprwire_debian.Client.State.{ClientSocket}
use hyprwire_debian.Client.Parser.{handle_message}
use hyprwire_debian.Client.Dispatch.{Polled, dispatch_events, after_message, flush_pending}
use hyprwire_debian.Client.Flush.{flush_pending-error, flush_pending-nil}
use hyprwire_debian.Client.Replies.{
  Reply, begin, protocols, new_object, event, fatal, roundtrip_done, reply_bytes, reply_fds,
  IsReply, Step, Run, finished, next, stream_bytes, stream_fds,
}
use hyprwire_debian.Client.Replies.Parse.{parse_single_message-Step}
use mathlib.Core.List.{append-nil}

reply_bytes-pos : (r : Reply) → 0 < length (reply_bytes r)
unfolding reply_bytes
reply_bytes-pos (begin versions) = unfold encode_handshake_begin in ground arith
reply_bytes-pos (protocols texts) = unfold encode_handshake_protocols in ground arith
reply_bytes-pos (new_object seq id) = unfold encode_new_object in ground arith
reply_bytes-pos (event object method args) = unfold generic_bytes in ground arith
reply_bytes-pos (fatal obj error_id msg) = unfold encode_fatal_error in ground arith
reply_bytes-pos (roundtrip_done seq) = unfold encode_roundtrip_done in ground arith

length-stream_bytes : (rs : List Reply) → length rs ≤ length (stream_bytes rs)
unfolding stream_bytes
length-stream_bytes [] = omega arith
length-stream_bytes (r ∷ rs) = omega (
  arith,
  length-append (reply_bytes r) (stream_bytes rs),
  reply_bytes-pos r,
  length-stream_bytes rs,
)

-- A socket that has these bytes to read.
abbrev pub readable : List ℕ → Polled
readable bytes = record {
  timed_out = false;
  pollhup = false;
  pollin = true;
  raw = record { bytes = bytes; fds = []; bad = false };
}

-- A socket that has the messages to read.
abbrev pub arriving : List Reply → Polled
arriving rs = record {
  timed_out = false;
  pollhup = false;
  pollin = true;
  raw = record { bytes = stream_bytes rs; fds = stream_fds rs; bad = false };
}

module _ (describe : Refusal → List ℕ) (prep_cif : List FfiType → Bool) where
  -- The loop of handleMessage takes the steps of the messages in the buffer, one after the other.
  pub handle_message-Run :
      (c : ClientSocket) (rs : List Reply) (c' : ClientSocket) (fuel : ℕ) (bytes : List ℕ)
      (needle : ℕ)
      → Run prep_cif c rs c'
      → All IsReply rs
      → length rs < fuel
      → length bytes < 2 ^ 63
      → drop needle bytes ≡ stream_bytes rs
      → handle_message describe prep_cif fuel c bytes (stream_fds rs) needle ≡ done (c', parsed_ok)
  unfolding handle_message stream_bytes stream_fds
  handle_message-Run c [] c' zero bytes needle run h hf fits e = elim hf [ ]
  handle_message-Run c (r ∷ rs) c' zero bytes needle run h hf fits e = elim hf [ ]
  handle_message-Run c [] _ (suc fuel) bytes needle finished h hf fits e =
      ground (arith, length-drop needle bytes, ap length e)
  handle_message-Run c (r ∷ rs) c'' (suc fuel) bytes needle (next {c' = c'} step run) h hf fits e =
      let len = length (reply_bytes r) in
      let e' : drop (needle + len) bytes ≡ stream_bytes rs =
        drop-append needle bytes (reply_bytes r) (stream_bytes rs) e in
      let size = length-append (reply_bytes r) (stream_bytes rs) in
      ground (
        arith,
        length-drop needle bytes,
        ap length e,
        size,
        reply_bytes-pos r,
        parse_single_message-Step describe prep_cif c r c' bytes needle (stream_fds rs)
            (stream_bytes rs) step h.0 fits e,
        add64_lem needle len
            (omega (arith, reply_bytes-pos r, length-drop needle bytes, ap length e, size)),
        handle_message-Run c' rs c'' fuel bytes (needle + len) run h.1 (omega arith) fits e',
      )

  -- Dispatching on a client without an error a buffer, below 2^63 bytes, that holds the messages of
  -- a server (begin with version 1 among its versions, protocols, new object, event, fatal error,
  -- roundtrip done, their numbers of 32 bits and their lengths of 28) with their descriptors makes
  -- the steps of the messages in order, if each event meets no object or one that takes it; then
  -- the calls that wait are gone through once, and the result is whether the client has no error.
  pub dispatch_events-Run :
      (c : ClientSocket) (r : Reply) (rs : List Reply) (c' : ClientSocket)
      → c.error ≡ false
      → Run prep_cif c (r ∷ rs) c'
      → All IsReply (r ∷ rs)
      → length (stream_bytes (r ∷ rs)) < 2 ^ 63
      → dispatch_events describe prep_cif c (arriving (r ∷ rs))
        ≡ done (flush_pending c', not c'.error)
  unfolding dispatch_events after_message stream_bytes
  dispatch_events-Run c r rs c' no_error run h fits = ground (
    arith,
    no_error,
    is_empty-pos (stream_bytes (r ∷ rs))
        (omega (arith, reply_bytes-pos r, length-append (reply_bytes r) (stream_bytes rs))),
    handle_message-Run c (r ∷ rs) c' (length (stream_bytes (r ∷ rs)) + 1) (stream_bytes (r ∷ rs)) 0
        run h (omega (arith, length-stream_bytes (r ∷ rs))) fits refl,
    flush_pending-error c',
  )

  -- A single message without descriptors, and the same where no calls wait.
  pub dispatch_events-one :
      (c : ClientSocket) (r : Reply) (c' : ClientSocket) (bytes : List ℕ)
      → c.error ≡ false
      → Step prep_cif c r c'
      → IsReply r
      → reply_fds r ≡ []
      → reply_bytes r ≡ bytes
      → length bytes < 2 ^ 63
      → dispatch_events describe prep_cif c (readable bytes) ≡ done (flush_pending c', not c'.error)
  unfolding stream_bytes stream_fds
  dispatch_events-one c r c' bytes no_error step h no_fds e fits =
      let whole = append-nil (reply_bytes r) in
      rw (whole, append-nil (reply_fds r), no_fds, e) at
        (dispatch_events-Run c r [] c' no_error (next step finished) (h, tt) (rw (whole, e) fits))

  pub dispatch_events-Step :
      (c : ClientSocket) (r : Reply) (c' : ClientSocket) (bytes : List ℕ)
      → c.error ≡ false
      → Step prep_cif c r c'
      → c'.pending_outgoing ≡ []
      → IsReply r
      → reply_fds r ≡ []
      → reply_bytes r ≡ bytes
      → length bytes < 2 ^ 63
      → dispatch_events describe prep_cif c (readable bytes) ≡ done (c', not c'.error)
  dispatch_events-Step c r c' bytes no_error step nothing h no_fds e fits =
      rw (flush_pending-nil c' nothing) at
        (dispatch_events-one c r c' bytes no_error step h no_fds e fits)

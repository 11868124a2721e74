-- ===== src/Client/Roundtrips.antt =====
-- A roundtrip from the client's request to its return.
use hyprwire_debian.Base.{
  ℕ, ◌+◌, ◌^◌, ◌<◌, ◌≡◌, refl, arith, Bool, true, false, List, [], ◌∷◌, Option, ◌∙◌,
}
use hyprwire_debian.Outcome.{done}
use hyprwire_debian.Message.Numbers.{encode_roundtrip_request, encode_roundtrip_done}
use hyprwire_debian.WireObject.Spec.{Refusal}
use hyprwire_debian.WireObject.Demarshal.{FfiType}
use hyprwire_debian.Server.State
use hyprwire_debian.Server.State.{Implementation, ServerClient}
use hyprwire_debian.Server.Client
use hyprwire_debian.Server.Socket.{dispatch_client, answer_roundtrip}
use hyprwire_debian.Server.Requests
use hyprwire_debian.Server.Requests.{
  Step, asked, next, finished, stream_bytes, stream_fds, request_bytes, request_fds,
}
use hyprwire_debian.Server.Requests.Runs.{dispatch_client-Run}
use hyprwire_debian.Client.State.{ClientSocket, log, sent}
use hyprwire_debian.Client.Operations.{send_message}
use hyprwire_debian.Client.Dispatch.{returned, dispatch_events, roundtrip, wait_for_roundtrip}
use hyprwire_debian.Client.Replies.{roundtrip_done, answered, reply_bytes, reply_fds}
use hyprwire_debian.Client.Replies.Runs.{readable, dispatch_events-Step}

dispatch_events-done :
    (describe : Refusal → List ℕ) (prep_cif : List FfiType → Bool) (c : ClientSocket) (seq : ℕ)
    → c.error ≡ false
    → c.pending_outgoing ≡ []
    → seq < 2 ^ 32
    → dispatch_events describe prep_cif c (readable (encode_roundtrip_done seq))
      ≡ done (record c { last_ackd_roundtrip_seq = seq }, true)
unfolding reply_bytes reply_fds encode_roundtrip_done
dispatch_events-done describe prep_cif c seq no_error nothing h = ground (
  arith,
  no_error,
  dispatch_events-Step describe prep_cif c (roundtrip_done seq)
      (record c { last_ackd_roundtrip_seq = seq }) (encode_roundtrip_done seq) no_error answered
      nothing h refl refl (omega arith),
)

request-answered :
    (describe : Refusal → List ℕ) (prep_cif : List FfiType → Bool) (peer : Option ℕ)
    (impls : List Implementation) (s : ServerClient) (seq : ℕ)
    → s.valid ≡ true
    → s.error ≡ false
    → 0 < seq
    → seq < 2 ^ 32
    → dispatch_client describe prep_cif peer impls s
        (record { bytes = encode_roundtrip_request seq; fds = []; bad = false })
      ≡ done (record (State.log s (State.sent (encode_roundtrip_done seq) [])) {
        scheduled_roundtrip_seq = 0;
      })
unfolding stream_bytes stream_fds request_bytes request_fds encode_roundtrip_request
request-answered describe prep_cif peer impls s seq valid no_error pos small =
    dispatch_client-Run describe prep_cif peer impls s (Requests.roundtrip seq) []
      (record s { scheduled_roundtrip_seq = seq }) (next no_error asked finished) (small, tt)
      (omega arith)
    ∙ answered
  where
    answered :
        done (answer_roundtrip (record s { scheduled_roundtrip_seq = seq }))
        ≡ done (record (State.log s (State.sent (encode_roundtrip_done seq) [])) {
          scheduled_roundtrip_seq = 0;
        })
    answered = unfold answer_roundtrip Client.send_message in ground (arith, valid, pos)

-- Let a client and a server's client have valid sockets and no error, and let the client have no
-- calls that wait and no answer yet to its next roundtrip, whose number is below 2^32. Then the
-- server, when it dispatches the request, sends the answer once and has none left to send; and
-- roundtrip on the client sends the request and returns when it reads that answer.
pub roundtrip-answered :
    (describe : Refusal → List ℕ) (prep_cif : List FfiType → Bool) (peer : Option ℕ)
    (impls : List Implementation) (c : ClientSocket) (s : ServerClient) (seq : ℕ)
    → c.valid ≡ true
    → c.error ≡ false
    → c.pending_outgoing ≡ []
    → seq ≡ c.last_sent_roundtrip_seq + 1
    → seq < 2 ^ 32
    → c.last_ackd_roundtrip_seq < seq
    → s.valid ≡ true
    → s.error ≡ false
    → (dispatch_client describe prep_cif peer impls s
          (record { bytes = encode_roundtrip_request seq; fds = []; bad = false })
        ≡ done (record (State.log s (State.sent (encode_roundtrip_done seq) [])) {
          scheduled_roundtrip_seq = 0;
        }))
      × (roundtrip describe prep_cif c (readable (encode_roundtrip_done seq) ∷ [])
          ≡ done (
              returned
                (record (log c (sent (encode_roundtrip_request seq) [])) {
                  last_sent_roundtrip_seq = seq;
                  last_ackd_roundtrip_seq = seq;
                })
                true))
unfolding roundtrip wait_for_roundtrip send_message
roundtrip-answered describe prep_cif peer impls c s seq valid no_error nothing is_next small behind
      s_valid s_no_error =
    (
      request-answered describe prep_cif peer impls s seq s_valid s_no_error (omega arith) small,
      ground (
        arith,
        valid,
        no_error,
        nothing,
        is_next,
        behind,
        dispatch_events-done describe prep_cif
            (record (log c (sent (encode_roundtrip_request seq) [])) {
              last_sent_roundtrip_seq = seq;
            })
            seq no_error nothing small,
      ),
    )

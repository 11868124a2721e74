-- ===== src/Server/Polls.antt =====
-- The poll descriptors of CServerSocket stay in step with its clients, so that the place of a
-- descriptor, less internalFds, is the place of its client.
use hyprwire_debian.Base.{
  ℕ, ◌≡◌, refl, Bool, true, false, Option, none, some, List, [], ◌∷◌, ◌++◌, map, length,
  if◌then◌else◌, ltb, not, ◌-◌, drop, sym, ◌∙◌, Bool-cases, inl, inr,
}
use mathlib.Core.Bool.{true≢false}
use hyprwire_debian.Outcome.{Outcome, done, reject, crash, stuck, ◌>>=◌}
use hyprwire_debian.Outcome.Results.{Results, Results-done, Results->>=}
use hyprwire_debian.WireObject.Spec.{Refusal, get_elem?}
use hyprwire_debian.WireObject.Demarshal.{FfiType}
use hyprwire_debian.Server.State.{Implementation, ServerClient, new_client}
use hyprwire_debian.Server.Socket.{
  Client, ServerSocket, Polled, Round, client_fd, recheck_poll_fds, internal_fds, attempt_empty,
  add_client, remove_client, without_fd, dispatch_new_connections, dispatch_client, dispatch_polled,
  dispatch_clients, add_round, without_errors, dispatch_existing_connections,
}

-- The places of the descriptors, as the rounds look for them: the listening one at the front, if
-- there is one, then those of the exit and the wakeup, the last two of the internal ones, and from
-- internalFds on those of the clients in order and no other.
pub record IsPolled (s : ServerSocket) : Type 0 where
  pub listens : s.is_empty_listener ≡ false → get_elem? s.pollfds 0 ≡ some s.fd
  pub exits : get_elem? s.pollfds (internal_fds s - 2) ≡ some s.exit_fd
  pub wakes : get_elem? s.pollfds (internal_fds s - 1) ≡ some s.wakeup_fd
  pub serves : drop (internal_fds s) s.pollfds ≡ map client_fd s.clients

pub rechecked-IsPolled : (s : ServerSocket) → IsPolled (recheck_poll_fds s)
unfolding recheck_poll_fds internal_fds
rechecked-IsPolled s = elim (Bool-cases s.is_empty_listener) [
  | inl e ↦ record {
    listens = λ f. absurd (true≢false (sym e ∙ f));
    exits = rw e refl;
    wakes = rw e refl;
    serves = rw e refl;
  }
  | inr e ↦ record {
    listens = λ f. rw e refl;
    exits = rw e refl;
    wakes = rw e refl;
    serves = rw e refl;
  }
]

same_fds-IsPolled :
    (s : ServerSocket) (cs : List Client)
    → map client_fd cs ≡ map client_fd s.clients
    → IsPolled s
    → IsPolled (record s { clients = cs })
unfolding internal_fds
same_fds-IsPolled s cs e h = record {
  listens = h.listens;
  exits = h.exits;
  wakes = h.wakes;
  serves = h.serves ∙ sym e;
}

if-IsPolled :
    (b : Bool) (r t : ServerSocket × Bool)
    → IsPolled r.0
    → IsPolled t.0
    → IsPolled (if b then r else t).0
if-IsPolled true r t h k = h
if-IsPolled false r t h k = k

add_client-IsPolled :
    (s : ServerSocket) (fd : Option ℕ) (is_open : Bool)
    → IsPolled s
    → IsPolled (add_client s fd is_open).0
unfolding add_client recheck_poll_fds
add_client-IsPolled s none is_open h = h
add_client-IsPolled s (some n) true h = rechecked-IsPolled (add_client s (some n) true).0
add_client-IsPolled s (some n) false h = h

pub dispatch_new_connections-IsPolled :
    (s : ServerSocket) (incoming : Bool) (fd : Option ℕ)
    → IsPolled s
    → IsPolled (dispatch_new_connections s incoming fd).0
unfolding dispatch_new_connections
dispatch_new_connections-IsPolled s incoming fd h =
    let accepted : ServerSocket = record s {
      clients =
          s.clients
          ++ (record { fd = fd; state = new_client (elim fd [ none ↦ false | some n ↦ true ]) })
            ∷ [];
    } in
    let taken : ServerSocket × Bool =
      if not incoming then (s, false) else (recheck_poll_fds accepted, true) in
    if-IsPolled s.is_empty_listener (s, false) taken h
      (if-IsPolled (not incoming) (s, false) (recheck_poll_fds accepted, true) h
        (rechecked-IsPolled accepted))

-- Let the descriptors that are polled be, in this order, the listening one, if the server listens,
-- those of the exit and the wakeup, which are the last two of the first internalFds, and from there
-- on those of the clients in order. They still are after attemptEmpty, addClient, removeClient and
-- dispatchNewConnections, on every branch.
pub clients-IsPolled :
    (s : ServerSocket) (fd : Option ℕ) (is_open incoming : Bool) (n : ℕ)
    → IsPolled s
    → IsPolled (attempt_empty s)
      × IsPolled (add_client s fd is_open).0
      × IsPolled (remove_client s n).0
      × IsPolled (dispatch_new_connections s incoming fd).0
unfolding attempt_empty remove_client
clients-IsPolled s fd is_open incoming n h = (
  rechecked-IsPolled (record s { is_empty_listener = true }),
  add_client-IsPolled s fd is_open h,
  if-IsPolled (ltb (length (without_fd n s.clients)) (length s.clients))
      (recheck_poll_fds (record s { clients = without_fd n s.clients }), true) (s, false)
      (rechecked-IsPolled (record s { clients = without_fd n s.clients })) h,
  dispatch_new_connections-IsPolled s incoming fd h,
)

abbrev KeepsFds : List Client → Round → Type 0
KeepsFds cs r = map client_fd r.0 ≡ map client_fd cs

module _ (describe : Refusal → List ℕ) (prep_cif : List FfiType → Bool)
    (peer : Client → Option ℕ) where
  dispatch_polled-fd :
      (impls : List Implementation) (c : Client) (p : Polled)
      → Results
          (λ (r : Client × Bool). r.0.fd ≡ c.fd)
          (dispatch_polled describe prep_cif impls peer c p)
  dispatch_polled-fd impls c p =
      Results->>= (λ (r : Client × Bool). r.0.fd ≡ c.fd)
        (dispatch_client describe prep_cif (peer c) impls c.state p.raw)
        (λ state. elim p.pollhup [
          | true ↦ done (record c { state = record state { error = true } }, true)
          | false ↦ done (record c { state = state }, false)
        ])
        (λ state. hung_up p.pollhup state)
    where
      hung_up :
          (b : Bool) (state : ServerClient)
          → Results
              (λ (r : Client × Bool). r.0.fd ≡ c.fd)
              (elim b [
                | true ↦ done (record c { state = record state { error = true } }, true)
                | false ↦ done (record c { state = state }, false)
              ])
      hung_up true state = refl
      hung_up false state = refl

  add_round-fds :
      (c c' : Client) (cs : List Client) (any hup : Bool) (o : Outcome Round)
      → c'.fd ≡ c.fd
      → Results (KeepsFds cs) o
      → Results (KeepsFds (c ∷ cs)) (o >>= λ r. done (add_round c' any hup r))
  add_round-fds c c' cs any hup (done r) e h = rw (e, h) refl
  add_round-fds c c' cs any hup reject e h = tt
  add_round-fds c c' cs any hup crash e h = tt
  add_round-fds c c' cs any hup stuck e h = tt

  -- The rounds keep the clients' descriptors.
  dispatch_clients-fds :
      (impls : List Implementation) (cs : List Client) (ps : List Polled)
      → Results (KeepsFds cs) (dispatch_clients describe prep_cif impls peer cs ps)
  unfolding dispatch_clients
  dispatch_clients-fds impls [] ps = refl
  dispatch_clients-fds impls (c ∷ cs) [] = refl
  dispatch_clients-fds impls (c ∷ cs) (p ∷ ps) =
      one_more p.pollin (dispatch_polled describe prep_cif impls peer c p)
        (dispatch_clients describe prep_cif impls peer cs ps) (dispatch_polled-fd impls c p)
        (dispatch_clients-fds impls cs ps)
    where
      one_more :
          (b : Bool) (o : Outcome (Client × Bool)) (rest : Outcome Round)
          → Results (λ (r : Client × Bool). r.0.fd ≡ c.fd) o
          → Results (KeepsFds cs) rest
          → Results (KeepsFds (c ∷ cs)) (elim b [
            | false ↦ rest >>= λ r. done (add_round c false false r)
            | true ↦ o >>= λ x. rest >>= λ r. done (add_round (x.0) true (x.1) r)
          ])
      one_more false o rest e h = add_round-fds c c cs false false rest refl h
      one_more true (done (c', hup)) rest e h = add_round-fds c c' cs true hup rest e h
      one_more true reject rest e h = tt
      one_more true crash rest e h = tt
      one_more true stuck rest e h = tt

-- If the descriptors that are polled are those of the server and then of its clients in order, they
-- still are after a round of dispatchExistingConnections that returns, whatever the clients sent
-- and whichever hung up.
pub dispatch_existing_connections-IsPolled :
    (describe : Refusal → List ℕ) (prep_cif : List FfiType → Bool) (peer : Client → Option ℕ)
    (s : ServerSocket) (ps : List Polled) (s' : ServerSocket) (any : Bool)
    → IsPolled s
    → dispatch_existing_connections describe prep_cif peer s ps ≡ done (s', any)
    → IsPolled s'
unfolding dispatch_existing_connections
dispatch_existing_connections-IsPolled describe prep_cif peer s ps s' any h e =
    Results-done (λ (r : ServerSocket × Bool). IsPolled r.0)
      (dispatch_existing_connections describe prep_cif peer s ps) (s', any)
      (after_rounds (dispatch_clients describe prep_cif s.impls peer s.clients ps)
        (dispatch_clients-fds describe prep_cif peer s.impls s.clients ps))
      e
  where
    finish_rounds : Round → Outcome (ServerSocket × Bool)
    finish_rounds (cs, any, hup) = elim hup [
      | true ↦ done (recheck_poll_fds (record s { clients = without_errors cs }), any)
      | false ↦ done (record s { clients = cs }, any)
    ]

    after_rounds :
        (o : Outcome Round)
        → Results (KeepsFds s.clients) o
        → Results (λ (r : ServerSocket × Bool). IsPolled r.0) (o >>= finish_rounds)
    after_rounds (done (cs, any, true)) k =
        rechecked-IsPolled (record s { clients = without_errors cs })
    after_rounds (done (cs, any, false)) k = same_fds-IsPolled s cs k h
    after_rounds reject k = tt
    after_rounds crash k = tt
    after_rounds stuck k = tt

-- ===== src/Server/Socket.antt =====
-- CServerSocket (src/core/server/ServerSocket.cpp): its clients, and how it dispatches them. What
-- `poll`, `accept` and `recvmsg` find is an input.
use hyprwire_debian.Base.{
  ℕ, ◌+◌, ◌-◌, ◌^◌, Bool, true, false, not, Option, none, some, List, [], ◌∷◌, ◌++◌, map, ltb, ◌==◌,
  if◌then◌else◌, length,
}
use hyprwire_debian.Outcome.{Outcome, done, ◌>>=◌}
use hyprwire_debian.Message.FatalError.{encode_fatal_error}
use hyprwire_debian.Message.Numbers.{encode_roundtrip_done}
use hyprwire_debian.WireObject.Spec.{Refusal, WireObject, is_empty}
use hyprwire_debian.WireObject.Demarshal.{FfiType}
use hyprwire_debian.Server.State.{Implementation, ServerClient, new_client}
use hyprwire_debian.Server.Client.{send_message, create_object}
use hyprwire_debian.Server.Parser.{
  Result, parsed_ok, parsed_error, parsed_stray_fds, handle_message,
}

-- SSocketRawParsedMessage, whose `data` is `bytes`
pub record RawMessage : Type 0 where
  pub bytes : List ℕ
  pub fds : List ℕ
  pub bad : Bool

-- A CServerClient that knows its descriptor: a number, or -1, which is not valid.
pub record Client : Type 0 where
  pub fd : Option ℕ
  pub state : ServerClient

pub record ServerSocket : Type 0 where
  pub fd : Option ℕ
  pub exit_fd : Option ℕ
  pub wakeup_fd : Option ℕ
  pub is_empty_listener : Bool
  pub impls : List Implementation
  pub clients : List Client
  -- How often a byte was written to `m_wakeupWriteFd`.
  pub wakeup_writes : ℕ
  pub pollfds : List (Option ℕ)

-- CServerSocket::addImplementation
unfoldable pub add_implementation : ServerSocket → Implementation → ServerSocket
add_implementation s x = record s { impls = s.impls ++ x ∷ [] }

abbrev pub client_fd : Client → Option ℕ
client_fd c = c.fd

-- CServerSocket::recheckPollFds: the descriptors that are polled, each for POLLIN.
unfoldable pub recheck_poll_fds : ServerSocket → ServerSocket
recheck_poll_fds s = record s {
  pollfds =
      (if s.is_empty_listener then [] else s.fd ∷ [])
      ++ (s.exit_fd ∷ s.wakeup_fd ∷ map client_fd s.clients);
}

-- CServerSocket::attemptEmpty
unfoldable pub attempt_empty : ServerSocket → ServerSocket
unfolding recheck_poll_fds
attempt_empty s = recheck_poll_fds (record s { is_empty_listener = true })

-- CServerSocket::internalFds
unfoldable pub internal_fds : ServerSocket → ℕ
internal_fds s = if s.is_empty_listener then 2 else 3

-- CServerSocket::addClient, of a descriptor that is or is not open, with its write to
-- `m_wakeupWriteFd`. Whether there is a client.
unfoldable pub add_client : ServerSocket → Option ℕ → Bool → ServerSocket × Bool
unfolding recheck_poll_fds
add_client s fd is_open = elim fd [
  | none ↦ (s, false)
  | some n ↦ elim is_open [
    | false ↦ (s, false)
    | true ↦ (
      recheck_poll_fds (record s {
        clients = s.clients ++ (record { fd = some n; state = new_client true }) ∷ [];
        wakeup_writes = s.wakeup_writes + 1;
      }),
      true,
    )
  ]
]

-- `c->m_fd.get() == fd`
abbrev pub has_fd : ℕ → Option ℕ → Bool
has_fd fd none = false
has_fd fd (some n) = n == fd

unfoldable pub without_fd : ℕ → List Client → List Client
without_fd fd [] = []
without_fd fd (c ∷ cs) = let rest = without_fd fd cs in if has_fd fd c.fd then rest else c ∷ rest

-- CServerSocket::removeClient, of a descriptor that is not -1.
unfoldable pub remove_client : ServerSocket → ℕ → ServerSocket × Bool
unfolding recheck_poll_fds
remove_client s fd =
    let rest = without_fd fd s.clients in
    if ltb (length rest) (length s.clients)
    then (recheck_poll_fds (record s { clients = rest }), true)
    else (s, false)

-- CServerSocket::dispatchNewConnections: whether POLLIN is set for the first descriptor, and what
-- `accept` returns.
unfoldable pub dispatch_new_connections : ServerSocket → Bool → Option ℕ → ServerSocket × Bool
unfolding recheck_poll_fds
dispatch_new_connections s incoming accepted =
    if s.is_empty_listener then (s, false) else if not incoming then (s, false) else (
      recheck_poll_fds (record s {
        clients =
            s.clients
            ++ (record {
              fd = accepted;
              state = new_client (elim accepted [ none ↦ false | some n ↦ true ]);
            })
              ∷ [];
      }),
      true,
    )

-- What `poll` set for a client, and what there is to read from it.
pub record Polled : Type 0 where
  pub pollin : Bool
  pub pollhup : Bool
  pub raw : RawMessage

-- `CFatalErrorMessage(nullptr, -1, msg)` to the client, whose error is set.
unfoldable pub drop_client : ServerClient → List ℕ → ServerClient
drop_client c msg = record (send_message c (encode_fatal_error none (2 ^ 32 - 1) msg) []) {
  error = true;
}

-- "fatal: invalid message on wire" and "fatal: failed to handle message on wire"
abbrev pub invalid_text : List ℕ
invalid_text =
    102 ∷ 97 ∷ 116 ∷ 97 ∷ 108 ∷ 58 ∷ 32 ∷ 105 ∷ 110 ∷ 118 ∷ 97 ∷ 108 ∷ 105 ∷ 100 ∷ 32 ∷ 109 ∷ 101
    ∷ 115 ∷ 115 ∷ 97 ∷ 103 ∷ 101 ∷ 32 ∷ 111 ∷ 110 ∷ 32 ∷ 119 ∷ 105 ∷ 114 ∷ 101 ∷ []

abbrev pub failed_text : List ℕ
failed_text =
    102 ∷ 97 ∷ 116 ∷ 97 ∷ 108 ∷ 58 ∷ 32 ∷ 102 ∷ 97 ∷ 105 ∷ 108 ∷ 101 ∷ 100 ∷ 32 ∷ 116 ∷ 111 ∷ 32
    ∷ 104 ∷ 97 ∷ 110 ∷ 100 ∷ 108 ∷ 101 ∷ 32 ∷ 109 ∷ 101 ∷ 115 ∷ 115 ∷ 97 ∷ 103 ∷ 101 ∷ 32 ∷ 111
    ∷ 110 ∷ 32 ∷ 119 ∷ 105 ∷ 114 ∷ 101 ∷ []

-- The end of dispatchClient, after a batch that was handled.
unfoldable pub answer_roundtrip : ServerClient → ServerClient
answer_roundtrip c =
    if ltb 0 c.scheduled_roundtrip_seq
    then record (send_message c (encode_roundtrip_done c.scheduled_roundtrip_seq) []) {
      scheduled_roundtrip_seq = 0;
    }
    else c

unfoldable pub after_message : ServerClient → Result → ServerClient
unfolding drop_client answer_roundtrip
after_message c parsed_ok = answer_roundtrip c
after_message c parsed_error = drop_client c failed_text
after_message c parsed_stray_fds = drop_client c failed_text

module _ (describe : Refusal → List ℕ) (prep_cif : List FfiType → Bool) (peer : Option ℕ)
    (impls : List Implementation) where
  -- CServerSocket::dispatchClient
  unfoldable pub dispatch_client : ServerClient → RawMessage → Outcome ServerClient
  unfolding after_message
  dispatch_client c raw =
      if raw.bad
      then done (drop_client c invalid_text)
      else if is_empty raw.bytes
      then done c
      else (do
        (c', r) ←
            handle_message describe prep_cif peer impls (length raw.bytes + 1) c raw.bytes raw.fds 0
        done (after_message c' r))

-- The clients that are kept: `std::erase_if(m_clients, [](const auto& c) { return c->m_error; })`.
unfoldable pub without_errors : List Client → List Client
without_errors [] = []
without_errors (c ∷ cs) = let rest = without_errors cs in if c.state.error then rest else c ∷ rest

-- The loop of dispatchExistingConnections: the clients, whether there was anything, and whether a
-- client hung up.
abbrev pub Round : Type 0
Round = List Client × Bool × Bool

abbrev pub add_round : Client → Bool → Bool → Round → Round
add_round c any hup (cs, anys, hups) =
    (c ∷ cs, elim any [ true ↦ true | false ↦ anys ], elim hup [ true ↦ true | false ↦ hups ])

module _ (describe : Refusal → List ℕ) (prep_cif : List FfiType → Bool)
    (impls : List Implementation) where
  -- The pid is asked for on the connection of each client.
  abbrev pub dispatch_polled : (Client → Option ℕ) → Client → Polled → Outcome (Client × Bool)
  dispatch_polled peer c p = do
    state ← dispatch_client describe prep_cif (peer c) impls c.state p.raw
    elim p.pollhup [
      | true ↦ done (record c { state = record state { error = true } }, true)
      | false ↦ done (record c { state = state }, false)
    ]

  unfoldable pub dispatch_clients : (Client → Option ℕ) → List Client → List Polled → Outcome Round
  unfolding dispatch_client
  dispatch_clients peer [] ps = done ([], false, false)
  dispatch_clients peer (c ∷ cs) [] = done (c ∷ cs, false, false)
  dispatch_clients peer (c ∷ cs) (p ∷ ps) = elim p.pollin [
    | false ↦ do r ← dispatch_clients peer cs ps; done (add_round c false false r)
    | true ↦ do
      (c', hup) ← dispatch_polled peer c p
      r ← dispatch_clients peer cs ps
      done (add_round c' true hup r)
  ]

-- CServerSocket::dispatchExistingConnections
unfoldable pub dispatch_existing_connections :
    (Refusal → List ℕ)
    → (List FfiType → Bool)
    → (Client → Option ℕ)
    → ServerSocket
    → List Polled
    → Outcome (ServerSocket × Bool)
unfolding dispatch_clients without_errors recheck_poll_fds
dispatch_existing_connections describe prep_cif peer s ps = do
  (cs, any, hup) ← dispatch_clients describe prep_cif s.impls peer s.clients ps
  elim hup [
    | true ↦ done (recheck_poll_fds (record s { clients = without_errors cs }), any)
    | false ↦ done (record s { clients = cs }, any)
  ]

-- CServerSocket::createObject, for a client and an object of it that are not null.
unfoldable pub create_object_from :
    List Implementation → ServerClient → WireObject → List ℕ → ℕ → ServerClient × Option WireObject
unfolding create_object
create_object_from impls c ref object seq =
    create_object impls c ref.protocol_name object ref.version seq

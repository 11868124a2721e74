-- ===== src/Reads/Calls.antt =====
-- How often parseFromFd (src/core/socket/SocketHelpers.cpp) calls recvmsg.
use hyprwire_debian.Base.{
  ℕ, suc, ◌+◌, ◌*◌, ◌/◌, ◌≤◌, ◌<◌, ◌≡◌, refl, ap, inl, inr, true, false, Option, none, some, List,
  [], ◌∷◌, ◌++◌, ◌==◌, length, arith, Bool-cases, ==→eq, length-append,
}
use mathlib.Core.Path.{subst}
use mathlib.Core.Bool.{true≢false}
use hyprwire_debian.Server.Socket.{RawMessage}
use hyprwire_debian.Reads.{
  no_control, other_control, rights, Received, failed, received, buffer_size, nothing, read_loop,
  parse_from_fd,
}

-- No call returns more than the buffer holds.
abbrev pub Fitting : List Received → Type 0
Fitting [] = Unit
Fitting (failed ∷ rs) = Fitting rs
Fitting (received bytes c ∷ rs) = (length bytes ≤ buffer_size) × Fitting rs

-- A message is read in as many calls as `total`, its size and 8192 for each call that there is,
-- has room for.
abbrev Reads : ℕ → Option (RawMessage × List Received) → Type 0
Reads total none = Unit
Reads total (some (m, rest)) =
    m.bad ≡ false
    → (total ≤ buffer_size * (length rest + 1) + length m.bytes)
      × (buffer_size * length rest + length m.bytes < total)

-- After a call that brought bytes, and with what the loop comes to behind it.
after-Reads :
    (m m' : RawMessage) (bytes : List ℕ) (rs : List Received)
    → m'.bytes ≡ m.bytes ++ bytes
    → length bytes ≤ buffer_size
    → Reads (length m'.bytes + buffer_size * length rs) (read_loop m' rs)
    → Reads
        (length m.bytes + buffer_size * suc (length rs))
        (elim (length bytes == buffer_size) [ true ↦ read_loop m' rs | false ↦ some (m', rs) ])
after-Reads m m' bytes rs e h k = elim (Bool-cases (length bytes == buffer_size)) [
  | inl t ↦
      let size : length m'.bytes + buffer_size * length rs
          ≡ length m.bytes + buffer_size * suc (length rs) =
        omega
          (arith, ap length e, length-append m.bytes bytes, ==→eq (length bytes) buffer_size t) in
      rw (t) (rw size at k)
  | inr f ↦
      let size = length-append m.bytes bytes in
      let short : length bytes < buffer_size = ground (arith, f, h) in
      rw f
        (λ good. (omega (arith, ap length e, size, short), omega (arith, ap length e, size, short)))
]

read_loop-Reads :
    (m : RawMessage) (rs : List Received)
    → Fitting rs
    → Reads (length m.bytes + buffer_size * length rs) (read_loop m rs)
unfolding read_loop
read_loop-Reads m [] h = tt
read_loop-Reads m (failed ∷ rs) h = λ good. absurd (true≢false good)
read_loop-Reads m (received bytes no_control ∷ rs) h =
    let m' = record m { bytes = m.bytes ++ bytes } in
    after-Reads m m' bytes rs refl h.0 (read_loop-Reads m' rs h.1)
read_loop-Reads m (received bytes other_control ∷ rs) h = λ good. absurd (true≢false good)
read_loop-Reads m (received bytes (rights fds) ∷ rs) h =
    let m' = record m { bytes = m.bytes ++ bytes; fds = m.fds ++ fds } in
    after-Reads m m' bytes rs refl h.0 (read_loop-Reads m' rs h.1)

-- Where no call brings more than the buffer holds, a message that parseFromFd returns and that is
-- not bad took its size divided by 8192, and one, calls of recvmsg.
pub parse_from_fd-calls :
    (rs rest : List Received) (m : RawMessage)
    → Fitting rs
    → parse_from_fd rs ≡ some (m, rest)
    → m.bad ≡ false
    → length rs ≡ length rest + (length m.bytes / buffer_size + 1)
unfolding parse_from_fd
parse_from_fd-calls rs rest m h e good =
    let (low, high) =
      (subst (Reads (0 + buffer_size * length rs)) e (read_loop-Reads nothing rs h)) good in
    ground (arith, low, high)

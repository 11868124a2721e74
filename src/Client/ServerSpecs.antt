-- ===== src/Client/ServerSpecs.antt =====
-- The protocols that a server offers, as their texts tell a client
-- (CClientSocket::serverSpecs, src/core/client/ClientSocket.cpp).
use hyprwire_debian.Base.{
  ℕ, zero, suc, ◌+◌, ◌/◌, ◌%◌, ◌≡◌, refl, arith, true, none, some, List, [], ◌∷◌, ◌++◌, IsU32, map,
  All,
}
use hyprwire_debian.Outcome.{done}
use hyprwire_debian.Wire.Decimal.{decimal_digits, decimal}
use hyprwire_debian.Wire.Decimal.RoundTrip.{stoul-decimal}
use hyprwire_debian.Server.State.{Implementation}
use hyprwire_debian.Server.Parser.{protocol_text}
use hyprwire_debian.Client.State.{ClientSocket}
use hyprwire_debian.Client.Operations.{split_last, server_spec, add_specs, server_specs}
use mathlib.Core.List.{append_assoc, append-nil}

split_last-append :
    (mark : ℕ) (front back : List ℕ)
    → split_last mark back ≡ none
    → split_last mark (front ++ mark ∷ back) ≡ some (front, back)
unfolding split_last
split_last-append mark [] back h = ground (arith, h)
split_last-append mark (b ∷ front) back h = ground (arith, split_last-append mark front back h)

split_last-tail :
    (mark x : ℕ) (xs : List ℕ) → split_last mark (x ∷ xs) ≡ none → split_last mark xs ≡ none
unfolding split_last
split_last-tail mark x xs h = ground (arith, h)

split_last-nowhere :
    (mark : ℕ) (xs ys : List ℕ)
    → split_last mark xs ≡ none
    → split_last mark ys ≡ none
    → split_last mark (xs ++ ys) ≡ none
unfolding split_last
split_last-nowhere mark [] ys h k = k
split_last-nowhere mark (x ∷ xs) ys h k =
    let inner : split_last mark xs ≡ none = split_last-tail mark x xs h in
    ground (arith, h, inner, split_last-nowhere mark xs ys inner k)

-- No digit is an '@'.
decimal_digits-unmarked : (fuel n : ℕ) → split_last b'@' (decimal_digits fuel n) ≡ none
unfolding decimal_digits split_last
decimal_digits-unmarked zero n = refl
decimal_digits-unmarked (suc fuel) n =
    let last = (48 + n % 10) ∷ [] in
    let front = decimal_digits fuel (n / 10) in
    ground (
      arith,
      split_last-nowhere b'@' front last (decimal_digits-unmarked fuel (n / 10)) (ground arith),
    )

-- What a protocol is to a client: its name and its version.
abbrev pub offer : Implementation → List ℕ × ℕ
offer p = (p.protocol.spec_name, p.protocol.spec_ver)

abbrev pub IsVersioned : Implementation → Type 0
IsVersioned p = IsU32 p.protocol.spec_ver

-- The text is split at its last '@', so that the name may hold one.
server_spec-protocol_text :
    (p : Implementation) → IsVersioned p → server_spec (protocol_text p) ≡ done (offer p)
unfolding server_spec protocol_text
server_spec-protocol_text p h =
    let no_mark : split_last b'@' (decimal p.protocol.spec_ver) ≡ none =
      unfold decimal in decimal_digits-unmarked 10 p.protocol.spec_ver in
    ground (
      arith,
      split_last-append b'@' p.protocol.spec_name (decimal p.protocol.spec_ver) no_mark,
      stoul-decimal p.protocol.spec_ver h,
    )

add_specs-protocol_texts :
    (impls : List Implementation) (c : ClientSocket)
    → All IsVersioned impls
    → add_specs c (map protocol_text impls)
      ≡ record c { server_specs = c.server_specs ++ map offer impls }
unfolding add_specs
add_specs-protocol_texts [] c h = rw (append-nil c.server_specs) refl
add_specs-protocol_texts (p ∷ ps) c h = ground (
  arith,
  server_spec-protocol_text p h.0,
  add_specs-protocol_texts ps (record c { server_specs = c.server_specs ++ offer p ∷ [] }) h.1,
  append_assoc c.server_specs (offer p ∷ []) (map offer ps),
)

pub server_specs-protocol_texts :
    (c : ClientSocket) (impls : List Implementation)
    → All IsVersioned impls
    → server_specs c (map protocol_text impls)
      ≡ record c { server_specs = c.server_specs ++ map offer impls; handshake_done = true }
unfolding server_specs
server_specs-protocol_texts c impls h = rw (add_specs-protocol_texts impls c h) refl

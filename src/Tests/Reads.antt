-- ===== src/Tests/Reads.antt =====
-- Reading from a socket, and calls whose lengths are large.
use hyprwire_debian.Base.{
  ℕ, zero, suc, ◌+◌, ◌/◌, ◌≡◌, ◌≢◌, refl, arith, false, some, List, [], ◌∷◌, ◌++◌, length,
}
use hyprwire_debian.Outcome.{stuck}
use hyprwire_debian.Server.Socket.{RawMessage}
use hyprwire_debian.Reads.{failed, received, rights, nothing, bad_message, parse_from_fd}
use hyprwire_debian.Reads.Chunks.{
  Piece, arrives, arrive, gathered, parse_from_fd-arrive, parse_from_fd-failed,
}
use hyprwire_debian.Reads.Calls.{parse_from_fd-calls}
use hyprwire_debian.Message.Generic.{parse_generic}
use hyprwire_debian.Message.Generic.Loops.{endless, call_header, parse_generic-endless}
use hyprwire_debian.VarInt.Ends.{low-NoHuge}
use hyprwire_debian.Message.Generic.Ends.{parse_generic-returns}

-- A buffer that is filled.
unfoldable zeros : ℕ → List ℕ
zeros zero = []
zeros (suc n) = 0 ∷ zeros n

length-zeros : (n : ℕ) → length (zeros n) ≡ n
unfolding zeros
length-zeros zero = refl
length-zeros (suc n) = omega (arith, length-zeros n)

abbrev filled : Piece
filled = (zeros 8192, some (7 ∷ []))

parse_from_fd-arrive_example :
    parse_from_fd (arrive (filled ∷ []) ++ arrives (1 ∷ 2 ∷ [], some (8 ∷ 9 ∷ [])) ∷ failed ∷ [])
    ≡ some (gathered nothing (filled ∷ (1 ∷ 2 ∷ [], some (8 ∷ 9 ∷ [])) ∷ []), failed ∷ [])
parse_from_fd-arrive_example =
    parse_from_fd-arrive (filled ∷ []) (1 ∷ 2 ∷ [], some (8 ∷ 9 ∷ [])) (failed ∷ [])
      (length-zeros 8192, tt) (omega arith)

parse_from_fd-failed_example :
    parse_from_fd (arrive (filled ∷ []) ++ failed ∷ []) ≡ some (bad_message, [])
parse_from_fd-failed_example = parse_from_fd-failed (filled ∷ []) [] (length-zeros 8192, tt)

abbrev short_message : RawMessage
short_message = record { bytes = 1 ∷ 2 ∷ []; fds = 5 ∷ []; bad = false }

read_short :
    parse_from_fd (received (1 ∷ 2 ∷ []) (rights (5 ∷ [])) ∷ failed ∷ [])
    ≡ some (short_message, failed ∷ [])
unfolding parse_from_fd
read_short = refl

parse_from_fd-calls_example : 2 ≡ 1 + (2 / 8192 + 1)
parse_from_fd-calls_example =
    parse_from_fd-calls (received (1 ∷ 2 ∷ []) (rights (5 ∷ [])) ∷ failed ∷ []) (failed ∷ [])
      short_message (omega arith, tt) read_short refl

-- A call of the method 0 of the object 1 that is 17 bytes long.
parse_generic-endless_example : parse_generic 1000 (call_header 1 0 ++ (endless ++ [])) [] 0 ≡ stuck
parse_generic-endless_example =
    parse_generic-endless 1 0 (call_header 1 0 ++ (endless ++ [])) [] [] 0 1000 (omega arith)
      (omega arith) (omega arith) refl

abbrev ordinary : List ℕ
ordinary = call_header 1 0 ++ (0x20 ∷ 2 ∷ 104 ∷ 105 ∷ 0 ∷ [])

parse_generic-returns_example : parse_generic 17 ordinary [] 0 ≢ stuck
parse_generic-returns_example =
    parse_generic-returns ordinary [] 0 17 (omega arith) (low-NoHuge ordinary (ground arith))
      (omega arith) (omega arith)

-- ===== src/Message/Generic.antt =====
-- src/core/message/messages/GenericProtocolMessage.cpp: the walk over the arguments of a message,
-- which finds its end and takes the file descriptors that belong to it. Positions are `size_t`,
-- and their sums wrap.
pub mod Args
pub mod Arrivals
pub mod RoundTrip
pub mod Loops
pub mod Ends
use hyprwire_debian.Base.{
  ℕ, zero, suc, ◌+◌, ◌*◌, ◌%◌, ◌^◌, true, false, List, [], ◌∷◌, ◌++◌, drop, length, ◌==◌,
  if◌then◌else◌, add64, sub64,
}
use hyprwire_debian.Outcome.{Outcome, done, reject, stuck, at, expect, read_u32, ◌>>=◌, ◌>>◌}
use hyprwire_debian.VarInt.{parse_var_int, parse_var_int_span}
use hyprwire_debian.Wire.Magic
use hyprwire_debian.Wire.Magic.{is_word}
use hyprwire_debian.Wire.MessageType

-- `m_dataSpan` is the memory from its first byte to the end of the buffer, and its size.
pub record Generic : Type 0 where
  pub object : ℕ
  pub depends_on_seq : ℕ
  pub method : ℕ
  pub span : List ℕ
  pub span_size : ℕ
  pub fds : List ℕ

-- The walk's `i`, the descriptors that came with the buffer and are left, and `m_fds`.
pub record Cursor : Type 0 where
  pub i : ℕ
  pub fds : List ℕ
  pub taken : List ℕ

-- `if (fds.empty()) return; m_fds.emplace_back(fds[0]); fds.erase(...)`
pub take_fd : ℕ → List ℕ → List ℕ → Outcome Cursor
take_fd i [] taken = reject
take_fd i (f ∷ fds) taken = done (record { i = i; fds = fds; taken = taken ++ f ∷ [] })

pub take_fds : ℕ → Cursor → Outcome Cursor
take_fds zero c = done c
take_fds (suc n) c = do c' ← take_fd c.i c.fds c.taken; take_fds n c'

-- The strings of an array: `len` is `arrMessageLen`. The span's size takes no account of `offset`.
pub skip_texts : List ℕ → ℕ → ℕ → ℕ → ℕ → Outcome ℕ
skip_texts bytes offset i len zero = done len
skip_texts bytes offset i len (suc n) = do
  (str_len, str_len_len) ←
      parse_var_int_span bytes (add64 (add64 offset i) len) (sub64 (sub64 (length bytes) i) len)
  skip_texts bytes offset i (add64 len (add64 str_len str_len_len)) n

-- The `switch` on an array's element type, with `len` the `arrMessageLen` so far.
pub skip_elements : List ℕ → ℕ → ℕ → ℕ → ℕ → Cursor → Outcome Cursor
skip_elements bytes offset arr_type arr_len len c =
    if is_word arr_type
    then done (record c { i = add64 c.i (add64 len (4 * arr_len % 2 ^ 64)) })
    else if arr_type == Magic.varchar
    then (do
      total ← skip_texts bytes offset c.i len arr_len
      done (record c { i = add64 c.i total }))
    else if arr_type == Magic.fd
    then (do c' ← take_fds arr_len c; done (record c' { i = add64 c.i len }))
    else reject

-- The case of an array. Here too the span's size takes no account of `offset`.
pub skip_array : List ℕ → ℕ → Cursor → Outcome Cursor
skip_array bytes offset c = do
  arr_type ← at bytes (add64 (add64 offset c.i) 1)
  (arr_len, len_len) ←
      parse_var_int_span bytes (add64 (add64 offset c.i) 2) (sub64 (length bytes) c.i)
  skip_elements bytes offset arr_type arr_len (2 + len_len) c

-- One round of the loop, on the argument whose type is `code`.
pub skip_arg : List ℕ → ℕ → ℕ → Cursor → Outcome Cursor
skip_arg bytes offset code c =
    if is_word code
    then done (record c { i = add64 c.i 5 })
    else if code == Magic.varchar
    then (do
      (a, b) ← parse_var_int bytes (add64 (add64 offset c.i) 1)
      done (record c { i = add64 c.i (add64 (add64 a b) 1) }))
    else if code == Magic.array
    then skip_array bytes offset c
    else if code == Magic.fd
    then (do c' ← take_fds 1 c; done (record c' { i = add64 c.i 1 }))
    else reject

-- `while (data.at(offset + i) != HW_MESSAGE_MAGIC_END)`, on fuel: where a length is at most 2^32
-- each round moves on, and the buffer's length is fuel enough.
pub skip_args : ℕ → List ℕ → ℕ → Cursor → Outcome Cursor
skip_args zero bytes offset c = stuck
skip_args (suc fuel) bytes offset c = do
  code ← at bytes (add64 offset c.i)
  elim (code == Magic.end) [
    | true ↦ done c
    | false ↦ do c' ← skip_arg bytes offset code c; skip_args fuel bytes offset c'
  ]

-- CGenericProtocolMessage(data, fds, offset): the message, its `m_len`, and the descriptors left.
unfoldable pub parse_generic : ℕ → List ℕ → List ℕ → ℕ → Outcome (Generic × ℕ × List ℕ)
parse_generic fuel bytes fds offset = do
  expect bytes (offset + 0) MessageType.generic_protocol_message
  expect bytes (offset + 1) Magic.object
  object ← read_u32 bytes (offset + 2)
  expect bytes (offset + 6) Magic.uint
  method ← read_u32 bytes (offset + 7)
  c ← skip_args fuel bytes offset (record { i = 11; fds = fds; taken = [] })
  done (
    record {
      object = object;
      depends_on_seq = 0;
      method = method;
      span = drop (offset + 11) bytes;
      span_size = sub64 (add64 c.i 1) 11;
      fds = c.taken;
    },
    add64 c.i 1,
    c.fds,
  )

-- ===== src/Wire/MessageType.antt =====
-- eMessageType and messageTypeToStr of src/core/message/MessageType.hpp.
use hyprwire_debian.Base.{ℕ, ◌==◌, if◌then◌else◌}
use Prim.Native.String.{String}

abbrev pub invalid : ℕ
invalid = 0

abbrev pub sup : ℕ
sup = 1

abbrev pub handshake_begin : ℕ
handshake_begin = 2

abbrev pub handshake_ack : ℕ
handshake_ack = 3

abbrev pub handshake_protocols : ℕ
handshake_protocols = 4

abbrev pub bind_protocol : ℕ
bind_protocol = 10

abbrev pub new_object : ℕ
new_object = 11

abbrev pub fatal_protocol_error : ℕ
fatal_protocol_error = 12

abbrev pub roundtrip_request : ℕ
roundtrip_request = 13

abbrev pub roundtrip_done : ℕ
roundtrip_done = 14

abbrev pub generic_protocol_message : ℕ
generic_protocol_message = 100

-- messageTypeToStr
unfoldable pub message_type_to_str : ℕ → String
message_type_to_str t =
    if t == invalid
    then "INVALID"
    else if t == sup
    then "SUP"
    else if t == handshake_begin
    then "HANDSHAKE_BEGIN"
    else if t == handshake_ack
    then "HANDSHAKE_ACK"
    else if t == handshake_protocols
    then "HANDSHAKE_PROTOCOLS"
    else if t == bind_protocol
    then "BIND_PROTOCOL"
    else if t == new_object
    then "NEW_OBJECT"
    else if t == fatal_protocol_error
    then "HW_MESSAGE_TYPE_FATAL_PROTOCOL_ERROR"
    else if t == generic_protocol_message
    then "GENERIC_PROTOCOL_MESSAGE"
    else if t == roundtrip_request
    then "HW_MESSAGE_TYPE_ROUNDTRIP_REQUEST"
    else if t == roundtrip_done
    then "HW_MESSAGE_TYPE_ROUNDTRIP_DONE"
    else "ERROR"

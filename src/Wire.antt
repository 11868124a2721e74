-- ===== src/Wire.antt =====
-- The codes of the wire format: include/hyprwire/core/types/MessageMagic.hpp and
-- src/core/message/MessageType.hpp. A code is the byte that stands on the wire; a cast of any
-- other byte to the enum keeps that byte, and a `switch` sends it to `default`.
pub mod Magic
pub mod MessageType
pub mod Decimal

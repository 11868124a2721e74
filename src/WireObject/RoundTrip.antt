-- ===== src/WireObject/RoundTrip.antt =====
-- A call that is encoded on one side is decoded on the other to the same values.
pub mod Decode
pub mod Check
pub mod Params
pub mod EndToEnd

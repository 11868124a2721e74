-- ===== src/WireObject.antt =====
-- src/core/wireObject: the calls that an object sends and receives.
pub mod Spec
pub mod Marshal
pub mod Demarshal
pub mod RoundTrip

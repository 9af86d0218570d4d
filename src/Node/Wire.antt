-- ===== src/Node/Wire.antt =====
-- What a capsule is on the wire between the nodes of an orbit.
pub mod Messages
pub mod Encode
pub mod Decode
pub mod RoundTrip

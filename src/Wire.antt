-- ===== src/Wire.antt =====
-- The wire layer of the D-Bus broker, crates/emskin-dbus/src/wire.
pub mod Sasl
pub mod Zvariant
pub mod Header
pub mod Frame
pub mod Body
pub mod Builder

-- ===== src/Proxy.antt =====
-- The in-process broker, crates/emskin-dbus/src/proxy.
pub mod Packets
pub mod Preedit
pub mod Connection
pub mod Table

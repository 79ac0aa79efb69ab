-- ===== src/Runs.antt =====
-- Runs of the definitions on concrete inputs.
mod Demo
mod Wire
mod Broker
mod Fcitx
mod Proxy
mod Bridge
mod Desk
mod Server
mod Clip
mod Record

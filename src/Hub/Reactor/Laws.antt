-- ===== src/Hub/Reactor/Laws.antt =====
-- What a reactor does with its sessions.
pub mod Sending
pub mod Access
pub mod Login
pub mod Closing
pub mod Linked
pub mod Held
pub mod Sound
pub mod Writing
pub mod Reading
pub mod Receiving
pub mod Looping
pub mod Events
pub mod Draining
pub mod Eager

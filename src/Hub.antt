-- ===== src/Hub.antt =====
-- The hub: include/hiim/hub and src/hub.
pub mod Status
pub mod Router
pub mod Queue
pub mod Wakeup
pub mod Messages
pub mod Context
pub mod Bridge
pub mod Worker
pub mod Distributor
pub mod Reactor
pub mod Sockets
pub mod SocketTuning
pub mod Listener
pub mod Health
pub mod Thread
pub mod Server
pub mod RouteLog
pub mod Interleaving
pub mod Delivery
mod Tests

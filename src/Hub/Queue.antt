-- ===== src/Hub/Queue.antt =====
-- src/hub/queue.hpp and src/hub/queue_push.hpp: the two bounded queues, and the retry loop.
pub mod Spec
pub mod Spsc
pub mod Steps
pub mod Mpsc
pub mod Backoff
mod Tests

-- ===== src/Redis.antt =====
-- internal/infrastructure/redis: the task queues and the event bus.
pub mod Queue
pub mod EventBus
mod Tables
pub mod Fifo
pub use Tables.*

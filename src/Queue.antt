-- ===== src/Queue.antt =====
-- internal/clickqueue: the recorder of the redirect handler and the worker behind the queue.
pub mod Decode
pub mod Recorder
pub mod Delivery
pub mod Worker
pub mod Steps
pub mod Names
pub mod Loss
pub mod Bounds
pub mod Account
pub mod Once
pub mod Retries

-- ===== src/Worker.antt =====
-- `CommandWorker` of services/command-worker/command_worker.py: one member of the consumer group
-- and the one partition that it reads. `Message` is what it makes of a record, `Handle` how it
-- settles one, and `Loop` the consumption loop with its offsets.
pub mod Message
pub mod Handle
pub mod Loop
pub mod Settled
pub mod Headers
pub mod Backpressure
pub mod Delivery

-- ===== src/Tests.antt =====
-- Concrete programs: the theorems at inputs that meet their hypotheses, and runs of the code.
mod Sample
mod Guards
mod Managers
mod Registry
mod Visitor
mod Interleaving
mod Sink
mod Messages
mod EventStore
mod Demo
mod Concurrent
mod Bus
mod Hooked
mod Nested

-- ===== src/Tests.antt =====
-- Small runs of the definitions, and the theorems at concrete inputs.
mod Rings
mod Buffers
mod Schemas
mod Readers
mod Writers
mod Buffered
mod Flushes
mod Texts
mod Files
mod Records
mod Workers
mod Messages

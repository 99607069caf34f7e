-- ===== src/Tests.antt =====
-- The theorems at concrete inputs.
mod Device
mod Pool
mod Slots
mod Radix
mod Manager
mod Engine
mod Text
mod Prompts
mod Queues
mod Serving

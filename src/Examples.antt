-- ===== src/Examples.antt =====
-- The theorems at concrete inputs, over the sample runtime of FlatBuffers.
mod Setup
mod Messages
mod Receiving
mod Logging
mod Calls
mod Workers
mod Lives
mod Arming
mod Tables
mod Streams
mod Delivery
mod Typed
mod Threads
mod Worlds
mod Network
mod Started
mod TypedWorld

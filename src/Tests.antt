-- ===== src/Tests.antt =====
-- Runs of the models on concrete inputs, and the theorems at inputs that meet their hypotheses.
mod Payload
mod Layout
mod Parallel
mod Keyword
mod Config
mod Storage
mod Encoding
mod Wire
mod Sizes
mod Packing
mod Server
mod Client
mod Respond

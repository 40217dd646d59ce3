-- ===== src/Tests.antt =====
-- The theorems at concrete inputs, and runs of the model.
mod Utf8
mod Strings
mod Hangul
mod Maps
mod Engine
mod Threads
mod Benchmark
mod Vietnamese
mod Candidates
mod Tables
mod Bus
mod Clients
mod Window
mod Typing

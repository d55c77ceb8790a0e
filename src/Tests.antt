-- ===== src/Tests.antt =====
-- Runs on concrete inputs, and each theorem applied at one.
mod Tolerance
mod Content
mod Ring
mod SumArray
mod Server
mod Loop
mod Tracker
mod Worker
mod Window
mod Callbacks
mod Channel
mod Traces
mod Queue
mod Adapter
mod Sketch
mod Replay

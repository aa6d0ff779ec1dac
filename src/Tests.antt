-- ===== src/Tests.antt =====
-- The theorems at concrete inputs.
mod Framing
mod Notices
mod Overflow
mod Queue
mod Sending
mod Serving
mod Requests
mod Threads
mod Voice
mod Answering
mod System

-- ===== src/Examples.antt =====
-- Tests on concrete inputs, and the theorems applied at inputs that meet their hypotheses.
mod Backend
mod Parsing
mod Sending
mod Requesting
mod Serving
mod Streaming
mod Writing
mod Pushing

-- ===== src/Tests.antt =====
-- Runs of the model at concrete inputs, and the theorems applied at them.
mod Layers
mod Framing
mod Opening
mod Paths
mod Packing
mod RoundTrip
mod Reading
mod Validation
mod Transport
mod UnitTests
mod Sessions

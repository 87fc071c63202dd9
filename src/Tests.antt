-- ===== src/Tests.antt =====
-- Runs of the models on small inputs.
mod Durable
mod Records
mod Memory
mod Cache
mod Throttle
mod Routing
mod Archive
mod Bounds
mod LiteLlm
mod Redaction
mod Config
mod Pricing
mod Effects
mod Recorder
mod Admission

-- ===== src/Examples.antt =====
-- The theorems at concrete inputs, and runs of the program on the samples.
mod Config
mod Storage
mod Baselines
mod Response
mod Targets
mod History
mod Detection
mod Exports
mod Correlation
mod Collector
mod Service
mod Pipeline

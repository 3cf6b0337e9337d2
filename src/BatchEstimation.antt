-- ===== src/BatchEstimation.antt =====
-- core/batch_estimation.py: the capacity search, its stored evidence and the reuse policy.
pub mod Model
pub mod Search
pub mod Case
pub mod Reuse
pub mod Recommend
pub mod Diagnostics
pub mod Catalogue
pub mod Measurement
pub mod Storage
pub mod Lookup
pub mod Samples
mod Examples
mod ReuseExamples

-- ===== src/Examples.antt =====
-- The theorems at concrete inputs, and tests of the definitions.
mod Thousandths
mod BackoffRuns
mod SchedulerRuns
mod PoolRuns
mod ExecutorRuns
mod StorageRuns
mod LearningRuns
mod CaptureRuns
mod ConfigRuns
mod HttpRuns
mod StreamRuns
mod PatternRuns
mod SetRuns
mod ResponseRuns
mod CommandRuns
mod Durations
mod DiscoveryRuns

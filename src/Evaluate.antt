-- ===== src/Evaluate.antt =====
-- internal/evaluate: facts, thresholds, rules, classification and score.
pub mod Facts
pub mod Counters
pub mod Thresholds
pub mod Totals
pub mod Physical
pub mod Throughput
pub mod Transport
pub mod Performance
pub mod Host
pub mod Limitation
pub mod Rules
pub mod Classify
pub mod Score
pub mod Recommend
pub mod Engine
pub mod Extract
pub mod Labels
pub mod Severity
pub mod Verdict
pub mod Findings
pub mod Bands
pub mod Outcomes
pub mod Coverage
pub mod Order
pub mod Advice
pub mod Outlier
pub mod Damages
pub mod Saved
pub mod Deltas
pub mod Samples
pub mod SampleReport
pub mod SampleRuns
mod Tests

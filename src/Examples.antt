-- ===== src/Examples.antt =====
-- The theorems at concrete inputs, and tests that run the definitions.
pub mod Data
pub mod StrategyExamples
pub mod WorkerExamples
pub mod Strokes
pub mod OuterExamples
pub mod RefinementExamples
pub mod BacktestExamples
pub mod GateExamples
pub mod RiskExamples
pub mod ExecutionExamples
pub mod ApiExamples
pub mod PaperExamples
pub mod ProtectedExamples

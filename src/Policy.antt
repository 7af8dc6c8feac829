-- ===== src/Policy.antt =====
-- internal/policy: rules from YAML, compiled to CEL programs, evaluated in order.
pub mod Compiler
pub mod Evaluator
pub mod Loader

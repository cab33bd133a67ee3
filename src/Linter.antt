-- ===== src/Linter.antt =====
-- linters/: the linting of objects (kubelinter) and of nodes (kubebench).
pub mod Lint
pub mod Specs
pub mod Bench
pub mod RuleSet
pub mod Run
pub mod Custom

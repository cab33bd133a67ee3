-- ===== src/ImageScan.antt =====
-- imagescan/: which images run where (delta.go), and when each is scanned (controller.go).
pub mod Runtime
pub mod State
pub mod Select
pub mod Schedule
pub mod Report
pub mod Run
pub mod Http
pub mod Jobs
pub mod Collector

-- ===== src/ImageScan/Jobs.antt =====
-- imagescan/scanner.go and imagescan/errors.go: the job that scans one image, and its errors.
pub mod Spec
pub mod Volumes
pub mod Wait
pub mod Scan
pub mod Errors
pub mod Mounts
pub mod Cleanup
pub mod Polls
pub mod Private

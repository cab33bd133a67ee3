-- ===== src/Delta.antt =====
-- delta/: the changes of cluster objects, collected and debounced (delta.go), the snapshot of all
-- live objects (snapshot.go), and the controller that sends reports (controller.go).
pub mod Item
pub mod Collect
pub mod Controller

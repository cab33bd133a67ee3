-- ===== src/Kube.antt =====
-- kube/: the informer controller, its owner index and the events that it hands to subscribers.
pub mod Object
pub mod Index
pub mod Owners
pub mod Dispatch
pub mod Informers
pub mod Transform

-- ===== src/Kubernetes.antt =====
-- src/kubernetes/mod.rs: what the watcher reports of pods (`Pod`), the runtime that turns it into
-- endpoint events (`Runtime`), the discovery that runs it (`Cluster`), and what is proved of them.
pub mod Pod
pub mod Monad
pub mod Runtime
pub mod Cluster
pub mod Services
pub mod Pods
pub mod Bounds
pub mod Frames
pub mod Restart
pub mod Tracking
pub mod Known
pub mod Tests

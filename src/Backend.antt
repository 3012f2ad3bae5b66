-- ===== src/Backend.antt =====
-- src/backend: the endpoints that discovery tasks announce (`Endpoint`), the channels between the
-- parts (`Channel`), the service manager (`Manager`), its choice of an endpoint (`Select`), and
-- what is proved of them.
pub mod Endpoint
pub mod Channel
pub mod Manager
pub mod Select
pub mod Candidates
pub mod Selection
pub mod Rotation
pub mod Fairness
pub mod View
pub mod Effects
pub mod Discovery
pub mod Deliver
pub mod Process
pub mod InPlace
pub mod Sanity
pub mod Crash
pub mod Aborted
pub mod Gone
pub mod PanicRuns
pub mod KeptRuns
pub mod Isolation
pub mod Counters
pub mod Untouched
pub mod Listener
pub mod Runs
pub mod Fixtures
pub mod Tests
pub mod PanicTests
pub mod Invariant
pub mod Refinement
pub mod Tables

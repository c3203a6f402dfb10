-- ===== src/Tests.antt =====
-- Runs at concrete inputs, and the theorems at such inputs.
pub mod Samples
pub mod Html
pub mod Pager
pub mod Views
pub mod Router
pub mod Workspace
pub mod Session
pub mod Operations
pub mod Report
pub mod Links
pub mod Clicks
pub mod Queue
pub mod Redirect

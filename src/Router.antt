-- ===== src/Router.antt =====
-- web/reports.js, the routing: the fragment of the address is read as a report or as a view of
-- the workspace, and the page shows it.
pub mod Target
pub mod Laws
pub mod Back
pub mod Show
pub mod Reports

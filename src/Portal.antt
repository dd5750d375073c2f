-- ===== src/Portal.antt =====
-- internal/portal: the session gate before the apps that have no login of their own, the portal's own login,
-- and the administration of the accounts.
pub mod Gate
pub mod Navigation
pub mod Login
pub mod Administration
pub mod Jobs
pub mod Dashboard
pub mod Actions
mod Tests

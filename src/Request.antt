-- ===== src/Request.antt =====
-- src/server.rs: what `handle_http` and `handle_request` decide before the application is called,
-- the request data that the scope is built from, and the feeding of the request's body.
pub mod Feed
pub mod FeedLaws
pub mod CutLaws
pub mod Front
pub mod FrontLaws
pub mod Upgrade
pub mod UpgradeLaws

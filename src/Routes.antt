-- ===== src/Routes.antt =====
-- The HTTP handlers (app/routes/). Rate limits are the limiter's and stand before a handler.
pub mod Cranes
pub mod Photos
pub mod Admin
pub mod Begun
pub mod Uploads
mod Health

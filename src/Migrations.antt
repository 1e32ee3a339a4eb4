-- ===== src/Migrations.antt =====
-- The migrations (alembic/).
pub mod Schema
pub mod Ddl
pub mod Versions
pub mod Metadata
pub mod Head
pub mod Inverse
pub mod Extensions
pub mod Downgrade
pub mod Target
pub mod Calls
pub mod Script

-- ===== src/Gateway.antt =====
-- The API gateway, src/application/process1.py: its publications, its gates and the routes behind them.
pub mod Publish
pub mod Published
pub mod Unsaved
pub mod Examples
pub mod Gates
pub mod Local
pub mod Get
pub mod ReadOnly
pub mod Got
pub mod Post
pub mod Passed
pub mod Posted
pub mod Settings
pub mod Routed
pub mod Batch

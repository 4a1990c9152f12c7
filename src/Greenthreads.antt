-- ===== src/Greenthreads.antt =====
-- The greenthread utilities of src/gt/gt.py.
pub mod Pool
pub mod Listed
pub mod Orderly
pub mod Periodic
pub mod Connect
pub mod Consumer
pub mod Kept
pub mod Connections
pub mod Stopped
pub mod Stopping
pub mod Report
pub mod Examples

-- ===== src/Circle.antt =====
-- The traffic circle of Academic-tasks/Linux-multithreading/traffic-cycle/traffic_cycle.c.
pub mod Types
pub mod Geometry
pub mod Cars
pub mod Threads
pub mod Print
pub mod Ring
pub mod Exclusion
mod Tests

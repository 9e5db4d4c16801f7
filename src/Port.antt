-- ===== src/Port.antt =====
-- The ports of Haifa and Eilat, Academic-Projects/WIN32API-IPC-Multithreading.
pub mod Numbers
pub mod Quay
pub mod Threads
pub mod Haifa
mod Tests

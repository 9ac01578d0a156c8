-- ===== src/Worker.antt =====
-- Package worker: the jobs that gather a company's data, and their pool (worker/worker.go).
pub mod Site
pub mod Due
pub mod Wiring
pub mod Fundamentals
pub mod Job
pub mod Pool
pub mod Samples
mod Tests

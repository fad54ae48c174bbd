-- ===== src/Middleware.antt =====
-- src/middleware/logging.rs and src/middleware/metrics.rs: the services that log and count what the
-- service inside them answers. What is written to the log is not modelled.
pub mod Logging
pub mod Recording

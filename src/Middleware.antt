-- ===== src/Middleware.antt =====
-- Small parts of the core: app/core/request_limits.py and app/core/log_buffer.py.
pub mod RequestLimits
pub mod LogBuffer
pub mod LogCounts
mod Tests

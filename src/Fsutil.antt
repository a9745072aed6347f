-- ===== src/Fsutil.antt =====
-- fsutil/ignore.go: exclusion patterns and size filters.
pub mod Ignore
mod Tests

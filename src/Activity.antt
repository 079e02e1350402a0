-- ===== src/Activity.antt =====
-- The activities that the workflow calls (runtime/internal/activity), as far as they decide something.
pub mod Specs

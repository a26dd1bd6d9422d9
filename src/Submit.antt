-- ===== src/Submit.antt =====
-- Submission statuses (pkg/submit), a module for each package.
pub mod Payload
pub mod Monotonic
pub mod Cache
pub mod Flow
pub mod Writer
pub mod Repository

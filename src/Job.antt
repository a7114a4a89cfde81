-- ===== src/Job.antt =====
-- internal/job: job files, their template variables, their validation, and the actions built of
-- them.
pub mod Shell
pub mod Template
pub mod Model
pub mod Validate
pub mod Variables

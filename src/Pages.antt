-- ===== src/Pages.antt =====
-- The two HTML pages that firmware/targets/esp32s3/main/main.c holds, and what their scripts do.
pub mod Landing
pub mod Setup
pub mod Watch
pub mod Outcome
pub mod Submission
pub mod Order
pub mod Answer
pub mod Rows
pub mod Lists
pub mod Dashboard
pub mod Display
pub mod Requests

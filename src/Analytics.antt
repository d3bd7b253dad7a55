-- ===== src/Analytics.antt =====
-- The analytics service of bridging/services/analyticsService.js.
pub mod Metrics
pub mod Batches
pub mod Products
pub mod Answers
pub mod Service
pub mod Tally
pub mod Ratings
pub mod Scores
pub mod Fresh
mod Tests

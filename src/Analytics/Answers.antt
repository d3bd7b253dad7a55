-- ===== src/Analytics/Answers.antt =====
-- What the methods of bridging/services/analyticsService.js answer with, beside the metrics of
-- batches and of products.
use sustainable_fashion_chai.Prelude.{Table, ℕ, String, Bool, Option}
use sustainable_fashion_chai.Analytics.Metrics.{Count, Double}

pub record Actions : Type 0 where
  pub recycle : ℕ
  pub repair : ℕ
  pub resell : ℕ
  pub upcycle : ℕ

-- nftsByType is always {}.
pub record TokenizationMetrics : Type 0 where
  -- error: "Ethereum contracts not available", mockData: true
  pub unavailable : Bool
  pub total_tokenized : Double
  pub total_token_value : Double
  pub circular_economy_actions : Actions

-- A percentage is a text, or the number 0 where there is nothing to divide by: `none`.
-- environmentalImpact is the same in every answer.
pub record SustainabilityMetrics : Type 0 where
  pub organic_percentage : Option String
  pub high_sustainability_products_percentage : Option String
  pub certifications : Table Count

pub record CircularEconomy : Type 0 where
  pub total_circular_actions : ℕ
  pub circular_percentage : Option String
  pub action_breakdown : Actions

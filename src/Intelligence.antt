-- ===== src/Intelligence.antt =====
-- internal/intelligence: the model providers, the router between them, and the summaries.
pub mod Provider
pub mod Summary

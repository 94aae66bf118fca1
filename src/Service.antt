-- ===== src/Service.antt =====
-- service.py: the steps of `run_once` that limit, filter and respond.
pub mod Rate
pub mod Pipeline
pub mod AutoResponse

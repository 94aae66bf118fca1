-- ===== src/Correlation.antt =====
-- correlation.py and risk.py: how detections become incidents.
pub mod Risk
pub mod Cases
pub mod Roles
pub mod Incidents

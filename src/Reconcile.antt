-- ===== src/Reconcile.antt =====
-- redfish_ctl/reconcile.py: the desired state of a node, its plan, and the changes it applies.
pub mod Desired
pub mod Match
pub mod Request
pub mod Plan

-- ===== src/Controller.antt =====
-- k8s/controller/redfish_node_profile_controller.py: the status of a RedfishNodeProfile, the approval of a
-- plan by its hash, and the handler that plans or applies the desired state.
pub mod Status
pub mod Profile

-- ===== src/Action.antt =====
-- The actions of a Redfish resource: what `RedfishManager` discovers of them, and their guarded invocation.
pub mod Discover
pub mod Validate
pub mod Gate
pub mod Report
pub mod Invoke
use redfish_ctl.Common.{String}
use redfish_ctl.Common.Dict.{Dict}
use redfish_ctl.Json.{Json}

-- redfish_ctl/redfish_api_common.py: RedfishAction. `args` is empty where the source has `None`.
pub record RedfishAction : Type 0 where
  pub action_name : String
  pub target : Json
  pub full_redfish_name : String
  pub args : Dict Json

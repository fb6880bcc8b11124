-- ===== src/Config/Identity.antt =====
-- redfish_ctl/config.py: exporter_identity_env.
use redfish_ctl.Common.{String, not, Option, none, List, [], ◌∷◌, contains}
use redfish_ctl.Common.Dict.{Dict}
use redfish_ctl.Common.Effect.{pure, ◌>>=◌}
use redfish_ctl.Config.{Env, Loading, env_first}

-- _EXPORTER_IDENTITY_ENV_NAMES
abbrev pub exporter_identity_env_names : Dict (List String)
exporter_identity_env_names =
    ("host_prefix", "REDFISH_EXPORTER_HOST_PREFIX" ∷ "IDRAC_EXPORTER_HOST_PREFIX" ∷ [])
    ∷ ("bmc_octet_base", "REDFISH_EXPORTER_BMC_OCTET_BASE" ∷ "IDRAC_EXPORTER_BMC_OCTET_BASE" ∷ [])
    ∷ (
      "server_octet_base",
      "REDFISH_EXPORTER_SERVER_OCTET_BASE" ∷ "IDRAC_EXPORTER_SERVER_OCTET_BASE" ∷ [],
    )
    ∷ ("server_subnet", "REDFISH_EXPORTER_SERVER_SUBNET" ∷ "IDRAC_EXPORTER_SERVER_SUBNET" ∷ [])
    ∷ (
      "deployment_environment",
      "REDFISH_EXPORTER_DEPLOYMENT_ENVIRONMENT" ∷ "IDRAC_EXPORTER_DEPLOYMENT_ENVIRONMENT" ∷ [],
    )
    ∷ (
      "deployment_environment_compat",
      "REDFISH_EXPORTER_DEPLOYMENT_ENVIRONMENT_COMPAT"
          ∷ "IDRAC_EXPORTER_DEPLOYMENT_ENVIRONMENT_COMPAT" ∷ [],
    )
    ∷ (
      "require_deployment_environment",
      "REDFISH_EXPORTER_REQUIRE_DEPLOYMENT_ENVIRONMENT"
          ∷ "IDRAC_EXPORTER_REQUIRE_DEPLOYMENT_ENVIRONMENT" ∷ [],
    )
    ∷ (
      "extra_dimensions",
      "REDFISH_EXPORTER_EXTRA_DIMENSIONS" ∷ "IDRAC_EXPORTER_EXTRA_DIMENSIONS" ∷ [],
    )
    ∷ ("service_name", "REDFISH_EXPORTER_SERVICE_NAME" ∷ "IDRAC_EXPORTER_SERVICE_NAME" ∷ [])
    ∷ (
      "service_namespace",
      "REDFISH_EXPORTER_SERVICE_NAMESPACE" ∷ "IDRAC_EXPORTER_SERVICE_NAMESPACE" ∷ [],
    )
    ∷ (
      "service_instance_id",
      "REDFISH_EXPORTER_SERVICE_INSTANCE_ID" ∷ "IDRAC_EXPORTER_SERVICE_INSTANCE_ID" ∷ [],
    )
    ∷ (
      "service_version",
      "REDFISH_EXPORTER_SERVICE_VERSION" ∷ "IDRAC_EXPORTER_SERVICE_VERSION" ∷ [],
    )
    ∷ (
      "service_criticality",
      "REDFISH_EXPORTER_SERVICE_CRITICALITY" ∷ "IDRAC_EXPORTER_SERVICE_CRITICALITY" ∷ [],
    )
    ∷ []

-- The loop over the options, in their order.
unfoldable pub identity_values :
    Env → List String → Dict (List String) → Loading (Dict (Option String))
unfolding env_first
identity_values env overridden [] = pure []
identity_values env overridden ((option, names) ∷ options) =
    env_first env names none (not (contains option overridden)) >>= λ value.
    identity_values env overridden options >>= λ rest. pure ((option, value) ∷ rest)

unfoldable pub exporter_identity_env : Env → List String → Loading (Dict (Option String))
unfolding identity_values
exporter_identity_env env overridden = identity_values env overridden exporter_identity_env_names

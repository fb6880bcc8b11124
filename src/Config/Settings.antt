-- ===== src/Config/Settings.antt =====
-- redfish_ctl/config.py: the typed accessors, and the endpoint of the DMTF simulator.
use redfish_ctl.Common.{
  ℕ, String, Bool, true, not, ◌&&◌, ◌||◌, Option, none, some, List, [], ◌∷◌, leb, if◌then◌else◌,
}
use redfish_ctl.Common.Dict.{has, lookup}
use redfish_ctl.Common.Effect.{pure, raise, ◌>>=◌}
use redfish_ctl.Common.Int.{ℤ, pos, negsuc, int_of_text}
use redfish_ctl.Common.Text.{is_empty, strip, occurs}
use text.Mathlib.Text.{starts_with}
use redfish_ctl.Config.{Env, ConfigError, invalid_literal, runtime, Loading, env_first, getenv}

abbrev pub or_empty : Option String → String
or_empty none = ""
or_empty (some t) = t

-- first or default, where an empty text is false
abbrev pub or_else : Option String → String → String
or_else none default = default
or_else (some t) default = if is_empty t then default else t

-- int(t)
abbrev pub int_or : ConfigError → Option ℤ → Loading ℤ
int_or e none = raise e
int_or e (some n) = pure n

-- int(env_first(…)), whose default is a text
abbrev to_int : Option String → Loading ℤ
to_int none = raise (invalid_literal "None")
to_int (some t) = int_or (invalid_literal t) (int_of_text t)

unfoldable pub env_int : Env → List String → String → Bool → Loading ℤ
unfolding env_first int_of_text
env_int env names default strict = env_first env names (some default) strict >>= to_int

unfoldable pub http_pool : Env → Loading ℤ
unfolding env_int
http_pool env = env_int env ("REDFISH_HTTP_POOL" ∷ "IDRAC_HTTP_POOL" ∷ []) "4" true

unfoldable pub http_retries : Env → Loading ℤ
unfolding env_int
http_retries env = env_int env ("REDFISH_HTTP_RETRIES" ∷ "IDRAC_HTTP_RETRIES" ∷ []) "3" true

unfoldable pub discovery_retries : Env → Loading ℤ
unfolding env_int
discovery_retries env =
    env_int env ("REDFISH_DISCOVERY_RETRIES" ∷ "IDRAC_DISCOVERY_RETRIES" ∷ []) "4" true

term_type : Env → Option String
unfolding lookup
term_type env = lookup "TERM" env

abbrev none_if_empty : String → Option String
none_if_empty t = if is_empty t then none else some t

-- a or b or None
unfoldable pub otlp_protocol : Env → Option String
unfolding lookup
otlp_protocol env = none_if_empty (
    or_else (lookup "OTEL_EXPORTER_OTLP_METRICS_PROTOCOL" env)
      (or_empty (lookup "OTEL_EXPORTER_OTLP_PROTOCOL" env)))

unfoldable pub exporter_config_file : Env → Loading (Option String)
unfolding env_first
exporter_config_file env =
    env_first env ("REDFISH_EXPORTER_CONFIG_FILE" ∷ "IDRAC_EXPORTER_CONFIG_FILE" ∷ []) none true

unfoldable pub exporter_credential_file : Env → Loading (Option String)
unfolding env_first
exporter_credential_file env =
    env_first env ("REDFISH_EXPORTER_CREDENTIAL_FILE" ∷ "IDRAC_EXPORTER_CREDENTIAL_FILE" ∷ []) none
      true

unfoldable pub signalfx_ingest_url : Env → Option String → String
unfolding lookup
signalfx_ingest_url env explicit = or_else explicit (getenv env "SPLUNK_INGEST_URL" "")

unfoldable pub signalfx_realm : Env → Option String → String
unfolding lookup
signalfx_realm env explicit = or_else explicit (getenv env "SPLUNK_O11Y_REALM" "")

unfoldable pub signalfx_api_token : Env → Option String → String
unfolding lookup
signalfx_api_token env env_name = getenv env (or_else env_name "SPLUNK_API_TOKEN") ""

unfoldable pub signalfx_access_token : Env → Option String → String
unfolding lookup
signalfx_access_token env env_name = getenv env (or_else env_name "SPLUNK_ACCESS_TOKEN") ""

unfoldable pub csdl_dir : Env → Option String
unfolding lookup
csdl_dir env = lookup "REDFISH_CSDL_DIR" env

pub record EndpointConfig : Type 0 where
  pub host : String
  pub username : String
  pub password : String
  pub port : ℤ

-- The four names are read in this order.
unfoldable pub endpoint_defaults : Env → Bool → Loading EndpointConfig
unfolding env_first env_int
endpoint_defaults env strict = env_first env ("REDFISH_IP" ∷ []) (some "") strict >>= λ host.
    env_first env ("REDFISH_USERNAME" ∷ []) (some "root") strict >>= λ username.
    env_first env ("REDFISH_PASSWORD" ∷ []) (some "") strict >>= λ password.
    env_int env ("REDFISH_PORT" ∷ []) "443" strict >>= λ port. pure (record {
      host = or_empty host;
      username = or_empty username;
      password = or_empty password;
      port = port;
    })

unfoldable pub exporter_build_revision : Env → String → Loading String
unfolding env_first strip
exporter_build_revision env default =
    env_first env ("REDFISH_BUILD_REVISION" ∷ []) (some default) true >>= λ value.
    pure (or_else (some (strip (or_else value default))) default)

pub record DmtfSimEndpoint : Type 0 where
  pub host : String
  pub port : ℕ
  pub is_http : Bool

abbrev pub guard : Bool → String → Loading Unit
guard holds message = if holds then pure tt else raise (runtime message)

-- `1 <= port <= 65535`
abbrev pub port_in_range : String → ℤ → Loading DmtfSimEndpoint
port_in_range host (pos n) =
    if leb 1 n && leb n 65535
    then pure (record { host = host; port = n; is_http = true })
    else raise (runtime "REDFISH_PORT must be between 1 and 65535")
port_in_range host (negsuc n) = raise (runtime "REDFISH_PORT must be between 1 and 65535")

-- The tests of the stripped host and port, in their order.
unfoldable pub checked_endpoint : String → String → Loading DmtfSimEndpoint
unfolding occurs int_of_text
checked_endpoint host port_raw = guard (not (is_empty host)) "REDFISH_IP must not be empty" >>= λ _.
    guard (not (starts_with host "http://" || starts_with host "https://"))
      "REDFISH_IP must contain only a hostname or IP address, not a URL scheme"
    >>= λ _. guard (not (occurs "/" host)) "REDFISH_IP must not contain a URI path" >>= λ _.
        int_or (runtime "REDFISH_PORT must be an integer") (int_of_text port_raw)
        >>= port_in_range host

unfoldable pub required_dmtf_sim_endpoint : Env → Loading DmtfSimEndpoint
unfolding lookup env_first strip checked_endpoint
required_dmtf_sim_endpoint env =
    guard (has "REDFISH_IP" env)
      "REDFISH_IP is missing. The builder must provide the persistent DMTF simulator Service hostname."
    >>= λ _.
        guard (has "REDFISH_PORT" env)
          "REDFISH_PORT is missing. The builder must provide the persistent DMTF simulator Service port."
        >>= λ _. env_first env ("REDFISH_IP" ∷ []) none true >>= λ ip.
            env_first env ("REDFISH_PORT" ∷ []) none true >>= λ port_raw.
            checked_endpoint (strip (or_empty ip)) (strip (or_empty port_raw))

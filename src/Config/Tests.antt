-- ===== src/Config/Tests.antt =====
-- Environments for the loader of the configuration.
use redfish_ctl.Common.{
  String, ◌≡◌, ◌⊎◌, refl, true, false, ◌||◌, none, some, List, [], ◌∷◌, ◌≤◌, All, arith, eq_iff,
  contains,
}
use redfish_ctl.Common.Dict.{lookup}
use redfish_ctl.Common.Effect.{ok, raised}
use redfish_ctl.Common.Int.{pos, int_of_text, digit_count, digit_value, max_digits}
use redfish_ctl.Common.Text.{is_empty, strip, occurs, show, show_digits}
use text.Mathlib.Text.{starts_with}
use redfish_ctl.Config.{
  Env, conflict, is_secret, present, conflict_text, env_first, env_flag, settle, redacted,
  is_truthy_flag,
}
use redfish_ctl.Config.Bounds.{required_dmtf_sim_endpoint_valid}
use redfish_ctl.Config.Identity.{exporter_identity_env, exporter_identity_env_names}
use redfish_ctl.Config.Laws.{Agree, env_first_resolves}
use redfish_ctl.Config.Numbers.{env_int-show}
use redfish_ctl.Config.Options.{first_values, IsClear, exporter_identity_env-IsClear}
use redfish_ctl.Config.Redaction.{IsAlike, env_first_redacts}
use redfish_ctl.Config.Settings.{
  env_int, http_pool, otlp_protocol, DmtfSimEndpoint, required_dmtf_sim_endpoint,
}

abbrev pools : List String
pools = "REDFISH_HTTP_POOL" ∷ "IDRAC_HTTP_POOL" ∷ []

abbrev alias_only : Env
alias_only = ("IDRAC_HTTP_POOL", " 8 ") ∷ []

abbrev clashing : Env
clashing = ("IDRAC_HTTP_POOL", "8") ∷ ("REDFISH_HTTP_POOL", "9") ∷ []

alias_is_read : http_pool alias_only [] ≡ (
  ok (pos 8),
  "IDRAC_HTTP_POOL is a deprecated alias for REDFISH_HTTP_POOL; set REDFISH_HTTP_POOL instead" ∷ [],
)
unfolding http_pool settle present lookup
alias_is_read = refl

clash_is_shown : http_pool clashing [] ≡ (
  raised (
      conflict
        "Configuration conflict:\n  REDFISH_HTTP_POOL=9\n  IDRAC_HTTP_POOL=8\n\nUse only REDFISH_HTTP_POOL."),
  [],
)
unfolding http_pool settle present lookup conflict_text redacted is_secret
clash_is_shown = refl

flag_is_on : env_flag (("VERBOSE", " Yes ") ∷ []) "VERBOSE" ≡ true
unfolding env_flag is_truthy_flag strip lookup
flag_is_on = refl

metrics_win :
    otlp_protocol (
      ("OTEL_EXPORTER_OTLP_PROTOCOL", "grpc")
      ∷ ("OTEL_EXPORTER_OTLP_METRICS_PROTOCOL", "http")
      ∷ [])
    ≡ some "http"
unfolding otlp_protocol lookup
metrics_win = refl

env_first_resolves_example :
    ((env_first clashing pools (some "4") false []).0 ≡ ok (some "9"))
    × ((Agree clashing pools × ((env_first clashing pools (some "4") true []).0 ≡ ok (some "9")))
        ⊎ (¬ Agree clashing pools
            × ((env_first clashing pools (some "4") true []).0
                ≡ raised (conflict (conflict_text pools (present clashing pools))))))
unfolding lookup
env_first_resolves_example = env_first_resolves clashing pools (some "4") []

abbrev tokens : List String
tokens = "REDFISH_TOKEN" ∷ "IDRAC_TOKEN" ∷ []

abbrev one_token : Env
one_token = ("REDFISH_TOKEN", "a") ∷ ("IDRAC_TOKEN", "b") ∷ []

abbrev other_token : Env
other_token = ("REDFISH_TOKEN", "c") ∷ ("IDRAC_TOKEN", "d") ∷ []

secret_name : is_secret "REDFISH_TOKEN" ≡ true
unfolding is_secret
secret_name = refl

secret_alias : is_secret "IDRAC_TOKEN" ≡ true
unfolding is_secret
secret_alias = refl

tokens-IsAlike : IsAlike one_token other_token
unfolding lookup
tokens-IsAlike = record {
  same_names = λ n. ground arith;
  same_values = λ n open_name.
      ground (arith, eq_iff "REDFISH_TOKEN" n, eq_iff "IDRAC_TOKEN" n, secret_name, secret_alias);
}

one_clashes :
    env_first one_token tokens none true []
    ≡ (raised (conflict (conflict_text tokens (present one_token tokens))), [])
unfolding env_first settle present lookup strip
one_clashes = refl

other_clashes :
    env_first other_token tokens none true []
    ≡ (raised (conflict (conflict_text tokens (present other_token tokens))), [])
unfolding env_first settle present lookup strip
other_clashes = refl

env_first_redacts_example :
    conflict (conflict_text tokens (present one_token tokens))
    ≡ conflict (conflict_text tokens (present other_token tokens))
env_first_redacts_example =
    env_first_redacts one_token other_token tokens none true [] [] []
      (conflict (conflict_text tokens (present one_token tokens)))
      (conflict (conflict_text tokens (present other_token tokens))) tokens-IsAlike one_clashes
      other_clashes

abbrev pooled : Env
pooled = ("IDRAC_HTTP_POOL", "12") ∷ []

only_twelve : (m v : String) → contains m pools ≡ true → lookup m pooled ≡ some v → v ≡ show 12
unfolding lookup show show_digits
only_twelve m v known set = ground arith

twelve : lookup "IDRAC_HTTP_POOL" pooled ≡ some (show 12)
unfolding lookup show show_digits
twelve = refl

two_digits : digit_count (show 12) ≤ max_digits
unfolding digit_count show show_digits digit_value
two_digits = omega arith

devanagari : int_of_text " ३४५" ≡ some (pos 345)
unfolding int_of_text
devanagari = refl

env_int-show_example : (env_int pooled pools "4" true []).0 ≡ ok (pos 12)
env_int-show_example =
    env_int-show pooled pools "4" "IDRAC_HTTP_POOL" true 12 [] two_digits refl twelve only_twelve

abbrev simulator : Env
simulator = ("REDFISH_IP", " dmtf-sim ") ∷ ("REDFISH_PORT", "8000") ∷ []

abbrev simulated : DmtfSimEndpoint
simulated = record { host = "dmtf-sim"; port = 8000; is_http = true }

simulator_resolves : required_dmtf_sim_endpoint simulator [] ≡ (ok simulated, [])
unfolding required_dmtf_sim_endpoint lookup settle present
simulator_resolves = refl

required_dmtf_sim_endpoint_valid_example :
    (1 ≤ 8000)
    × (8000 ≤ 65535)
    × (is_empty "dmtf-sim" ≡ false)
    × (starts_with "dmtf-sim" "http://" || starts_with "dmtf-sim" "https://" ≡ false)
    × (occurs "/" "dmtf-sim" ≡ false)
    × (true ≡ true)
    × ((ip : String) × (lookup "REDFISH_IP" simulator ≡ some ip) × (strip ip ≡ "dmtf-sim"))
    × ((raw : String) × (lookup "REDFISH_PORT" simulator ≡ some raw)
        × (int_of_text (strip raw) ≡ some (pos 8000)))
required_dmtf_sim_endpoint_valid_example =
    required_dmtf_sim_endpoint_valid simulator simulated [] [] simulator_resolves

abbrev named : Env
named = ("REDFISH_EXPORTER_SERVICE_NAME", "fleet") ∷ ("IDRAC_EXPORTER_SERVICE_NAME", "rack") ∷ []

identity_resolves :
    exporter_identity_env named ("service_name" ∷ []) []
    ≡ (ok (first_values named exporter_identity_env_names), [])
unfolding exporter_identity_env lookup settle present strip
identity_resolves = refl

exporter_identity_env-IsClear_example :
    (first_values named exporter_identity_env_names
      ≡ first_values named exporter_identity_env_names)
    × All (IsClear named ("service_name" ∷ [])) exporter_identity_env_names
exporter_identity_env-IsClear_example =
    exporter_identity_env-IsClear named ("service_name" ∷ []) [] []
      (first_values named exporter_identity_env_names) identity_resolves

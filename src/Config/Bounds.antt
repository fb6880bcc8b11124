-- ===== src/Config/Bounds.antt =====
-- redfish_ctl/config.py: the endpoint of the DMTF simulator.
use redfish_ctl.Common.{
  ◌≤◌, String, ◌≡◌, refl, sym, Bool, true, false, not, ◌||◌, Option, none, some, List, [], ◌∷◌,
  arith, eq_refl, Option-cases, inl, inr,
}
use redfish_ctl.Common.Dict.{lookup}
use redfish_ctl.Common.Effect.{ok, ◌>>=◌}
use redfish_ctl.Common.Int.{ℤ, pos, negsuc, int_of_text}
use redfish_ctl.Common.Text.{is_empty, strip, occurs}
use text.Mathlib.Text.{starts_with}
use redfish_ctl.Config.{Env, ConfigError, present, settle, env_first}
use redfish_ctl.Config.Settings.{
  guard, int_or, port_in_range, DmtfSimEndpoint, checked_endpoint, required_dmtf_sim_endpoint,
}

-- What an endpoint of a host and a port number has.
abbrev IsInRange : String → Option ℤ → DmtfSimEndpoint → Type 0
IsInRange host parsed e =
    (1 ≤ e.port)
    × (e.port ≤ 65535)
    × (parsed ≡ some (pos e.port))
    × (e.host ≡ host)
    × (e.is_http ≡ true)

port_in_range_ok :
    (host : String) (k : ℤ) (e : DmtfSimEndpoint) (s s' : List String)
    → port_in_range host k s ≡ (ok e, s')
    → IsInRange host (some k) e
port_in_range_ok host (pos n) e s s' h = ground arith
port_in_range_ok host (negsuc n) e s s' h = cc

-- Three tests, a number and its range, one after the other.
five_checks :
    (a b c : Bool) (ma mb mc : String) (error : ConfigError) (parsed : Option ℤ) (host : String)
    (e : DmtfSimEndpoint) (s s' : List String)
    → (guard a ma >>= λ _.
          guard b mb >>= λ _. guard c mc >>= λ _. int_or error parsed >>= port_in_range host)
        s
      ≡ (ok e, s')
    → (a ≡ true) × (b ≡ true) × (c ≡ true) × IsInRange host parsed e
five_checks false b c ma mb mc error parsed host e s s' h = cc
five_checks true false c ma mb mc error parsed host e s s' h = cc
five_checks true true false ma mb mc error parsed host e s s' h = cc
five_checks true true true ma mb mc error none host e s s' h = cc
five_checks true true true ma mb mc error (some k) host e s s' h =
    (refl, refl, refl, port_in_range_ok host k e s s' h)

checked_endpoint_ok :
    (host port_raw : String) (e : DmtfSimEndpoint) (s s' : List String)
    → checked_endpoint host port_raw s ≡ (ok e, s')
    → (not (is_empty host) ≡ true)
      × (not (starts_with host "http://" || starts_with host "https://") ≡ true)
      × (not (occurs "/" host) ≡ true)
      × IsInRange host (int_of_text port_raw) e
unfolding checked_endpoint
checked_endpoint_ok host port_raw e s s' h = five_checks _ _ _ _ _ _ _ _ host e s s' h

env_first_single :
    (env : Env) (n : String) (s : List String)
    → env_first env (n ∷ []) none true s ≡ (ok (lookup n env), s)
unfolding env_first present settle
env_first_single env n s = elim (Option-cases (lookup n env)) [
  | inl unset ↦ rw unset refl
  | inr (v, set) ↦ rw (set, eq_refl n) refl
]

-- The simulator's endpoint, if it is given, has the port and the host that the environment has under
-- the canonical names, stripped: a port from 1 to 65535, and a host that is not empty, has no URL
-- scheme and no slash.
pub required_dmtf_sim_endpoint_valid :
    (env : Env) (e : DmtfSimEndpoint) (warned warned' : List String)
    → required_dmtf_sim_endpoint env warned ≡ (ok e, warned')
    → (1 ≤ e.port)
      × (e.port ≤ 65535)
      × (is_empty e.host ≡ false)
      × (starts_with e.host "http://" || starts_with e.host "https://" ≡ false)
      × (occurs "/" e.host ≡ false)
      × (e.is_http ≡ true)
      × ((ip : String) × (lookup "REDFISH_IP" env ≡ some ip) × (strip ip ≡ e.host))
      × ((raw : String) × (lookup "REDFISH_PORT" env ≡ some raw)
          × (int_of_text (strip raw) ≡ some (pos e.port)))
unfolding required_dmtf_sim_endpoint
required_dmtf_sim_endpoint_valid env e warned warned' h =
    elim (Option-cases (lookup "REDFISH_IP" env)) [
      | inl unset ↦ cc (rw unset at h)
      | inr (ip, ip_set) ↦ elim (Option-cases (lookup "REDFISH_PORT" env)) [
        | inl unset ↦ cc (rw (ip_set, unset) at h)
        | inr (raw, port_set) ↦
            let reads =
              rw
                (
                  ip_set,
                  port_set,
                  env_first_single env "REDFISH_IP" warned,
                  env_first_single env "REDFISH_PORT" warned,
                )
                at h in
            let (nonempty, no_scheme, no_slash, ranged) =
              checked_endpoint_ok (strip ip) (strip raw) e warned warned'
                (rw (ip_set, port_set) at reads) in
            let (lo, hi, parsed, host, http) = ranged in
            (
              lo,
              hi,
              rw host (ground arith),
              rw host (ground arith),
              rw host (ground arith),
              http,
              (ip, ip_set, sym host),
              (raw, port_set, parsed),
            )
      ]
    ]

-- ===== src/Ntp/Limits.antt =====
-- redfish_ctl/manager/cmd_ntp_set.py: the servers that ntp-set accepts.
use redfish_ctl.Common.{
  ◌≤◌, String, ◌≡◌, ◌⊎◌, inl, inr, refl, sym, Bool, true, false, List, [], ◌∷◌, All, ltb, length,
  arith, Bool-cases,
}
use redfish_ctl.Common.Effect.{Result, ok, raised, ◌>>=ᴿ◌}
use redfish_ctl.Http.{Exn}
use redfish_ctl.Ntp.{
  Servers, missing, one, many, is_plausible_ntp_server, split_servers, all_plausible,
  checked_servers, normalize_ntp_servers, given,
}

module _ (repr : String → String) (is_ip_address : String → Bool) where
  abbrev pub IsPlausible : String → Type 0
  IsPlausible server = is_plausible_ntp_server repr is_ip_address server ≡ true

  all_plausible_ok :
      (servers : List String) (u : Unit)
      → all_plausible repr is_ip_address servers ≡ ok u
      → All IsPlausible servers
  unfolding all_plausible
  all_plausible_ok [] u h = tt
  all_plausible_ok (server ∷ servers) u h =
      elim (Bool-cases (is_plausible_ntp_server repr is_ip_address server)) [
        | inl good ↦ (good, all_plausible_ok servers u (rw good at h))
        | inr bad ↦ absurd (ground arith)
      ]

  abbrev pub IsWithin : List String → Type 0
  IsWithin servers = (1 ≤ length servers) × (length servers ≤ 4) × All IsPlausible servers

  checked_servers_ok :
      (candidates servers : List String)
      → checked_servers repr is_ip_address candidates ≡ ok servers
      → IsWithin servers
  unfolding checked_servers
  checked_servers_ok [] servers h = absurd cc
  checked_servers_ok (c ∷ candidates) servers h =
      elim (Bool-cases (ltb 4 (length (c ∷ candidates)))) [
        | inl many_given ↦ absurd (ground arith)
        | inr few ↦
            by_check (all_plausible repr is_ip_address (c ∷ candidates)) refl (rw few at h)
              (ground arith)
      ]
    where
      by_check :
          (r : Result Exn Unit)
          → all_plausible repr is_ip_address (c ∷ candidates) ≡ r
          → (r >>=ᴿ λ _. ok (c ∷ candidates)) ≡ ok servers
          → length (c ∷ candidates) ≤ 4
          → IsWithin servers
      by_check (ok u) e k few =
          let same : c ∷ candidates ≡ servers = cc in
          rw (sym same) (omega arith, few, all_plausible_ok (c ∷ candidates) u e)
      by_check (raised x) e k few = absurd cc

  -- The servers that ntp-set goes on with are one to four, each of which is a plausible address or
  -- name, unless it was asked to clear them and was given none: then there are none.
  pub normalize_ntp_servers_limits :
      (servers : Servers) (clear : Bool) (normalized : List String)
      → normalize_ntp_servers repr is_ip_address servers clear ≡ ok normalized
      → IsWithin normalized
        ⊎ ((clear ≡ true) × (given repr is_ip_address servers ≡ false) × (normalized ≡ []))
  unfolding normalize_ntp_servers
  normalize_ntp_servers_limits servers true normalized h =
      elim (Bool-cases (given repr is_ip_address servers)) [
        | inl some_given ↦ absurd (ground arith)
        | inr none_given ↦ inr (refl, none_given, ground arith)
      ]
  normalize_ntp_servers_limits missing false normalized h = absurd cc
  normalize_ntp_servers_limits (one t) false normalized h =
      inl (checked_servers_ok (split_servers repr is_ip_address (t ∷ [])) normalized h)
  normalize_ntp_servers_limits (many ts) false normalized h =
      inl (checked_servers_ok (split_servers repr is_ip_address ts) normalized h)

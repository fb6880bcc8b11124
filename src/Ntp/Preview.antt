-- ===== src/Ntp/Preview.antt =====
-- redfish_ctl/manager/cmd_ntp_set.py: NtpSet.execute without --confirm.
use redfish_ctl.Common.{
  ◌≤◌, String, Bool, true, false, not, ◌&&◌, Option, List, [], ◌∷◌, if◌then◌else◌, length, All,
  arith, Bool-cases, inl, inr,
}
use redfish_ctl.Ntp.Covers.{Covers, ntp_payload-covers, legacy_verdict-Covers}
use redfish_ctl.Common.Dict.{Dict}
use redfish_ctl.Common.Effect.{Result, ok, raised, Exec, pure, lift, ◌>>=◌}
use redfish_ctl.Common.Effect.Safe.{Holds, Safe, Safe-pure, Safe-if, Safe-bind, Safe-lift}
use redfish_ctl.Json.{Json, truthy, str, to_text, object, get}
use redfish_ctl.Http.{Exn, Transport}
use redfish_ctl.Ntp.{Servers, normalize_ntp_servers}
use redfish_ctl.Ntp.Plan.{
  PlanItem, Skipped, Verdict, passed_over, planned, skips, is_legacy_ntp_resource, without_block,
  is_dict, is_other, manager_name, link, legacy_ntp_uri, add_verdict, try_get, after_get, legacy,
  on_network, verdict_of, verdicts, require_plan, ntp_plan, as_dict, legacy_verdict,
}
use redfish_ctl.Ntp.Apply.{NtpResult, preview, done, carry_out, execute}

-- A result that is only a preview.
abbrev pub IsPreview : NtpResult → Type 0
IsPreview (preview servers plan skipped) =
    (1 ≤ length plan) × All (λ item. Covers servers (planned item)) plan
IsPreview (done servers applied skipped error) = ⊥

module _ (repr : String → String) {S : Type 0} (query : String → Exec S Exn Json) (P : S → Type 0)
    (reads : (uri : String) → Safe P (λ v. Unit) (query uri)) where
  after_get-safe :
      (q : Result Exn Json × S)
      → P q.1
      → P (after_get repr query q).1 × Holds (λ v. Unit) (after_get repr query q).0
  after_get-safe (ok v, t) h = (h, tt)
  after_get-safe (raised e, t) h = (h, tt)

  Safe-try_get : (uri : Json) → Safe P (λ v. Unit) (try_get repr query uri)
  unfolding try_get
  Safe-try_get uri = record { run = λ s p. by_truth s p (truthy uri) }
    where
      by_truth :
          (s : S) (p : P s) (b : Bool)
          → let r =
              if b
              then after_get repr query (query (to_text repr uri) s)
              else (ok (object [], false), s) in
            P r.1 × Holds (λ v. Unit) r.0
      by_truth s p true =
          after_get-safe (query (to_text repr uri) s) ((reads (to_text repr uri)).run s p).0
      by_truth s p false = (p, tt)

  Safe-lift_holds : {A : Type 0} {Q : A → Type 0} (r : Result Exn A) → Holds Q r → Safe P Q (lift r)
  Safe-lift_holds r h = record { run = λ s p. (p, h) }

  module _ (servers : List String) where
    without_block-Covers :
        (id network_uri uri : Json)
        → Covers servers (without_block repr query servers id network_uri uri)
    without_block-Covers id network_uri uri = elim (Bool-cases (truthy network_uri)) [
      | inl linked ↦ rw linked tt
      | inr none_linked ↦ rw none_linked tt
    ]

    Safe-legacy :
        (id network_uri uri : Json)
        → Safe P (Covers servers) (legacy repr query servers id network_uri uri)
    unfolding legacy
    Safe-legacy id network_uri uri =
        Safe-bind (λ v. Unit) (try_get repr query uri) _ (Safe-try_get uri)
          (λ got u.
            Safe-if (is_legacy_ntp_resource got.0) (lift (legacy_verdict servers id uri))
              (pure (without_block repr query servers id network_uri uri))
              (λ h. Safe-lift_holds _ (legacy_verdict-Covers servers id uri))
              (λ h. Safe-pure _ (without_block-Covers id network_uri uri)))

    Safe-on_network :
        (manager : Dict Json) (manager_uri : String) (id network_uri : Json) (network : Json × Bool)
        → Safe P
            (Covers servers)
            (on_network repr query servers manager manager_uri id network_uri network)
    unfolding on_network
    Safe-on_network manager manager_uri id network_uri (network, readable) =
        Safe-if (truthy network_uri && not readable) _ _ (λ h. Safe-pure _ tt)
          (λ h.
            Safe-bind (λ v. Unit) (lift (as_dict network)) _ (Safe-lift (as_dict network))
              (λ fields u.
                Safe-if (is_dict (get fields "NTP")) _ _
                  (λ h. Safe-pure _ (ntp_payload-covers servers))
                  (λ h. Safe-legacy id network_uri (legacy_ntp_uri manager manager_uri))))

    Safe-verdict_of :
        (manager_id : Option String) (uri : String)
        → Safe P (Covers servers) (verdict_of repr query servers manager_id uri)
    unfolding verdict_of
    Safe-verdict_of manager_id uri =
        Safe-bind (λ v. Unit) (try_get repr query (str uri)) _ (Safe-try_get (str uri))
          (λ body u.
            Safe-bind (λ v. Unit) (lift (as_dict body.0)) _ (Safe-lift (as_dict body.0))
              (λ manager u.
                let id = manager_name repr query servers manager uri in
                let network_uri = link manager "NetworkProtocol" in
                Safe-if (is_other manager_id id) (pure passed_over)
                  (try_get repr query network_uri
                    >>= on_network repr query servers manager uri id network_uri)
                  (λ h. Safe-pure _ tt)
                  (λ h.
                    Safe-bind (λ v. Unit) (try_get repr query network_uri) _
                      (Safe-try_get network_uri)
                      (λ network u. Safe-on_network manager uri id network_uri network))))

    -- What the plan may hold.
    abbrev pub PlanCovers : List PlanItem × List Skipped → Type 0
    PlanCovers lists = All (λ item. Covers servers (planned item)) lists.0

    PlanCovers-add :
        (v : Verdict) (lists : List PlanItem × List Skipped)
        → Covers servers v
        → PlanCovers lists
        → PlanCovers (add_verdict repr query servers v lists)
    PlanCovers-add passed_over lists h k = k
    PlanCovers-add (planned item) lists h k = (h, k)
    PlanCovers-add (skips s) lists h k = k

    Safe-verdicts :
        (manager_id : Option String) (uris : List String)
        → Safe P PlanCovers (verdicts repr query servers manager_id uris)
    unfolding verdicts
    Safe-verdicts manager_id [] = Safe-pure _ tt
    Safe-verdicts manager_id (uri ∷ uris) =
        Safe-bind (Covers servers) (verdict_of repr query servers manager_id uri) _
          (Safe-verdict_of manager_id uri)
          (λ v h.
            Safe-bind PlanCovers (verdicts repr query servers manager_id uris) _
              (Safe-verdicts manager_id uris) (λ lists k. Safe-pure _ (PlanCovers-add v lists h k)))

    -- A plan that is returned covers the servers and is not empty.
    abbrev pub IsPlan : List PlanItem × List Skipped → Type 0
    IsPlan lists = (1 ≤ length lists.0) × PlanCovers lists

    require_plan-IsPlan :
        (manager_id : Option String) (lists : List PlanItem × List Skipped)
        → PlanCovers lists
        → Holds IsPlan (require_plan repr query servers manager_id lists)
    unfolding require_plan
    require_plan-IsPlan manager_id ([], skipped) h = ground arith
    require_plan-IsPlan manager_id (item ∷ plan, skipped) h = (omega arith, h)

    pub Safe-ntp_plan :
        (discover : Exec S Exn (List String)) (manager_id : Option String)
        → Safe P (λ v. Unit) discover
        → Safe P IsPlan (ntp_plan repr query servers discover manager_id)
    unfolding ntp_plan
    Safe-ntp_plan discover manager_id h =
        Safe-bind (λ v. Unit) discover _ h
          (λ uris u.
            Safe-bind PlanCovers (verdicts repr query servers manager_id uris) _
              (Safe-verdicts manager_id uris)
              (λ lists k. Safe-lift_holds _ (require_plan-IsPlan manager_id lists k)))

-- Without confirm, whatever property of the outer world the reads keep, also those that fail, is kept by
-- ntp-set, also by one that raises; what it returns is a preview of a plan that is not empty and in
-- which every PATCH names every server.
pub execute-IsPreview :
    (repr : String → String) (is_ip_address : String → Bool) (T : Transport) (origin : String)
    (query : String → Exec T.State Exn Json) (discover : Exec T.State Exn (List String))
    (P : T.State → Type 0) (servers : Servers) (manager_id : Option String) (clear : Bool)
    → ((uri : String) → Safe P (λ v. Unit) (query uri))
    → Safe P (λ uris. Unit) discover
    → Safe P IsPreview
        (execute repr is_ip_address T origin query discover servers manager_id clear false)
unfolding execute carry_out
execute-IsPreview repr is_ip_address T origin query discover P servers manager_id clear reads
      finds =
    Safe-bind (λ v. Unit) (lift (normalize_ntp_servers repr is_ip_address servers clear)) _
      (Safe-lift _)
      (λ normalized u.
        Safe-bind (IsPlan repr query P reads normalized)
          (ntp_plan repr query normalized discover manager_id) _
          (Safe-ntp_plan repr query P reads normalized discover manager_id finds)
          (λ lists k. Safe-pure _ k))

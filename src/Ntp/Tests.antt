-- ===== src/Ntp/Tests.antt =====
-- Runs of ntp-set on a BMC with one manager whose NetworkProtocol has an NTP block.
use redfish_ctl.Common.{
  ◌≡◌, ◌⊎◌, refl, String, Bool, true, false, none, List, [], ◌∷◌, ◌==◌, if◌then◌else◌,
}
use redfish_ctl.Common.Effect.{Exec, ok, raised}
use redfish_ctl.Common.Effect.Safe.{Safe}
use redfish_ctl.Json.{Json, str, object}
use redfish_ctl.Http.{Exn, Response, Transport, decoded, invalid_argument, success}
use redfish_ctl.Ntp.{one, given, is_plausible_ntp_server, normalize_ntp_servers}
use redfish_ctl.Ntp.Apply.{NtpResult, done, execute}
use redfish_ctl.Ntp.Confirmed.{Done, ntp_confirmed}
use redfish_ctl.Ntp.Limits.{IsWithin, normalize_ntp_servers_limits}
use redfish_ctl.Ntp.Preview.{IsPreview, execute-IsPreview}

abbrev plain : String → String
plain t = t

abbrev no_ip : String → Bool
no_ip t = false

two_servers :
    normalize_ntp_servers plain no_ip (one "a.example, b.example.,") false
    ≡ ok ("a.example" ∷ "b.example." ∷ [])
unfolding normalize_ntp_servers
two_servers = refl

five_are_refused :
    normalize_ntp_servers plain no_ip (one "a,b,c,d,e") false
    ≡ raised (invalid_argument "ManagerNetworkProtocol NTP supports at most 4 servers")
unfolding normalize_ntp_servers
five_are_refused = refl

dash_is_refused : is_plausible_ntp_server plain no_ip "-a.example" ≡ false
unfolding is_plausible_ntp_server
dash_is_refused = refl

normalize_ntp_servers_limits_example :
    IsWithin plain no_ip ("a.example" ∷ "b.example." ∷ [])
    ⊎ ((false ≡ true)
        × (given plain no_ip (one "a.example, b.example.,") ≡ false)
        × (◌≡◌ {A = List String} ("a.example" ∷ "b.example." ∷ []) []))
normalize_ntp_servers_limits_example =
    normalize_ntp_servers_limits plain no_ip (one "a.example, b.example.,") false
      ("a.example" ∷ "b.example." ∷ []) two_servers

abbrev accepted : Response
accepted = record {
  status_code = 204;
  location = none;
  retry_after = none;
  body = decoded (object []);
}

abbrev recorder : Transport
recorder = record { State = List String; send = λ method url payload log. (ok accepted, url ∷ log) }

abbrev manager : Json
manager = object (
    ("Id", str "1")
    ∷ ("NetworkProtocol", object (("@odata.id", str "/redfish/v1/Managers/1/NetworkProtocol") ∷ []))
    ∷ [])

abbrev network : Json
network = object (("NTP", object []) ∷ [])

abbrev query : String → Exec (List String) Exn Json
query uri log = (ok (if uri == "/redfish/v1/Managers/1" then manager else network), log)

abbrev discover : Exec (List String) Exn (List String)
discover log = (ok ("/redfish/v1/Managers/1" ∷ []), log)

abbrev IsQuiet : List String → Type 0
IsQuiet log = log ≡ []

execute-IsPreview_example :
    Safe IsQuiet IsPreview
      (execute plain no_ip recorder "https://bmc" query discover (one "a.example") none false false)
execute-IsPreview_example =
    execute-IsPreview plain no_ip recorder "https://bmc" query discover IsQuiet (one "a.example")
      none false (λ uri. record { run = λ s p. (p, tt) }) (record { run = λ s p. (p, tt) })

abbrev result : NtpResult
result =
    done ("a.example" ∷ [])
      (record {
        manager = str "1";
        target = str "/redfish/v1/Managers/1/NetworkProtocol";
        status = success;
        error = none;
      }
        ∷ [])
      [] none

one_patch :
    execute plain no_ip recorder "https://bmc" query discover (one "a.example") none false true []
    ≡ (ok result, "https://bmc/redfish/v1/Managers/1/NetworkProtocol" ∷ [])
unfolding execute redfish_ctl.Http.Status.default_error_handler
one_patch = refl

ntp_confirmed_example :
    Done plain no_ip recorder "https://bmc" query discover
      (one "a.example")
      none
      false
      result
      []
      ("https://bmc/redfish/v1/Managers/1/NetworkProtocol" ∷ [])
ntp_confirmed_example =
    ntp_confirmed plain no_ip recorder "https://bmc" query discover (one "a.example") none false
      result [] ("https://bmc/redfish/v1/Managers/1/NetworkProtocol" ∷ []) one_patch

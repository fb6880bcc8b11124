-- ===== src/Proxy/Total.antt =====
-- redfish_ctl/proxy/core.py: the reads of node_metric_samples, whatever each of them gives.
use redfish_ctl.Common.{String, ◌≡◌, refl, sym, ap, ◌∙◌, Bool, List, [], ◌∷◌, ◌++◌}
use redfish_ctl.Common.Effect.{Result, ok, raised, Exec, pure, ◌>>=◌}
use redfish_ctl.Json.{Json, null, bool}
use redfish_ctl.Proxy.{NodeConfig}
use redfish_ctl.Proxy.Commands.{
  Call, Answer, Failure, Managers, data_or_none, optional_command, listed, keyed, MetricRows,
  metric_rows,
}

module _ (M : Managers) (node : NodeConfig) where
  -- The state after calls, one after the other, whatever they give.
  abbrev pub after_calls : List Call → M.State → M.State
  after_calls [] s = s
  after_calls (c ∷ cs) s = after_calls cs (M.sync_invoke node c s).1

  after_calls-append :
      (cs ds : List Call) (s : M.State)
      → after_calls (cs ++ ds) s ≡ after_calls ds (after_calls cs s)
  after_calls-append [] ds s = refl
  after_calls-append (c ∷ cs) ds s = after_calls-append cs ds (M.sync_invoke node c s).1

  -- A computation that returns, after exactly these calls.
  pub record IsTotal {A : Type 0} (m : Exec M.State Failure A) (cs : List Call) : Type 0 where
    pub returns : (s : M.State) → (a : A) × (m s ≡ (ok a, after_calls cs s))

  IsTotal-pure : {A : Type 0} (a : A) → IsTotal (pure a) []
  IsTotal-pure a = record { returns = λ s. (a, refl) }

  bind_ok :
      {A B : Type 0} (f : A → Exec M.State Failure B) (p : Result Failure A × M.State) (a : A)
      (t : M.State)
      → p ≡ (ok a, t)
      → ((λ s. p) >>= f) t ≡ f a t
  bind_ok f p a t e = rw e refl

  IsTotal-bind :
      {A B : Type 0} (m : Exec M.State Failure A) (f : A → Exec M.State Failure B)
      (cs ds : List Call)
      → IsTotal m cs
      → ((a : A) → IsTotal (f a) ds)
      → IsTotal (m >>= f) (cs ++ ds)
  IsTotal-bind m f cs ds h k = record {
    returns = λ s.
        let (a, e) = h.returns s in
        let (b, e') = (k a).returns (after_calls cs s) in
        (
          b,
          bind_ok f (m s) a (after_calls cs s) e
              ∙ (e' ∙ ap (λ t. (ok b, t)) (sym (after_calls-append cs ds s))),
        );
  }

  data_or_none_lem :
      (p : Result Failure Answer × M.State) → (v : Json) × (data_or_none M p ≡ (ok v, p.1))
  data_or_none_lem (raised e, t) = (null, refl)
  data_or_none_lem (ok answer, t) = (_, refl)

  IsTotal-optional_command : (c : Call) → IsTotal (optional_command M node c) (c ∷ [])
  unfolding optional_command
  IsTotal-optional_command c = record { returns = λ s. data_or_none_lem (M.sync_invoke node c s) }

  abbrev expanded_call : String → String → Bool → Call
  expanded_call api_call name do_expanded = record {
    api_call = api_call;
    name = name;
    kwargs = ("do_expanded", bool do_expanded) ∷ [];
  }

  abbrev plain_call : String → String → Call
  plain_call api_call name = record { api_call = api_call; name = name; kwargs = [] }

  IsTotal-listed :
      (api_call name : String) (do_expanded : Bool)
      → IsTotal
          (listed M node api_call name do_expanded)
          (expanded_call api_call name do_expanded ∷ [])
  unfolding listed
  IsTotal-listed api_call name do_expanded =
      IsTotal-bind _ _ (_ ∷ []) []
        (IsTotal-optional_command (expanded_call api_call name do_expanded)) (λ v. IsTotal-pure _)

  IsTotal-keyed :
      (api_call name key : String)
      → IsTotal (keyed M node api_call name key) (plain_call api_call name ∷ [])
  unfolding keyed
  IsTotal-keyed api_call name key =
      IsTotal-bind _ _ (_ ∷ []) [] (IsTotal-optional_command (plain_call api_call name))
        (λ v. IsTotal-pure _)

  -- The eight reads.
  abbrev pub metric_calls : Bool → List Call
  metric_calls do_expanded =
      plain_call "EnvironmentMetrics" "environment-metrics"
      ∷ plain_call "Thermal" "thermal"
      ∷ expanded_call "Sensors" "sensors" do_expanded
      ∷ expanded_call "NvLinkPorts" "nvlink-ports" do_expanded
      ∷ expanded_call "SupermicroMetricReports" "metric-reports" do_expanded
      ∷ plain_call "LeakDetectors" "leak-detectors"
      ∷ expanded_call "NetworkAdapters" "network-adapters" do_expanded
      ∷ expanded_call "ComponentIntegrity" "component-integrity" do_expanded
      ∷ []

  IsTotal-metric_rows :
      (do_expanded : Bool) → IsTotal (metric_rows M node do_expanded) (metric_calls do_expanded)
  unfolding metric_rows
  IsTotal-metric_rows x =
      IsTotal-bind _ _ (_ ∷ []) _
        (IsTotal-keyed "EnvironmentMetrics" "environment-metrics" "metrics")
        (λ a.
          IsTotal-bind _ _ (_ ∷ []) _ (IsTotal-keyed "Thermal" "thermal" "temperature_readings")
            (λ b. IsTotal-bind _ _ (_ ∷ []) _ (IsTotal-listed "Sensors" "sensors" x) (λ c.
              IsTotal-bind _ _ (_ ∷ []) _ (IsTotal-listed "NvLinkPorts" "nvlink-ports" x) (λ d.
                IsTotal-bind _ _ (_ ∷ []) _
                  (IsTotal-listed "SupermicroMetricReports" "metric-reports" x)
                  (λ e.
                    IsTotal-bind _ _ (_ ∷ []) _
                      (IsTotal-keyed "LeakDetectors" "leak-detectors" "detectors")
                      (λ f.
                        IsTotal-bind _ _ (_ ∷ []) _
                          (IsTotal-listed "NetworkAdapters" "network-adapters" x)
                          (λ g.
                            IsTotal-bind _ _ (_ ∷ []) []
                              (IsTotal-listed "ComponentIntegrity" "component-integrity" x)
                              (λ h. IsTotal-pure _))))))))

  -- The reads of a node's metrics always return rows, whatever fails: each of the eight commands is issued
  -- exactly once, in order, also after one that raised or answered with an error.
  pub metric_rows_total :
      (do_expanded : Bool) (s : M.State)
      → (rows : MetricRows M) × (metric_rows M node do_expanded s
          ≡ (ok rows, after_calls (metric_calls do_expanded) s))
  metric_rows_total do_expanded s = (IsTotal-metric_rows do_expanded).returns s

-- ===== src/Query/Valid.antt =====
-- redfish_ctl/redfish_query.py: which queries are valid.
use redfish_ctl.Common.{
  ℕ, ◌≤◌, ◌<>◌, ◌≡◌, ◌⊎◌, inl, inr, refl, Bool, true, false, ◌&&◌, ltb, arith, length, Bool-cases,
}
use redfish_ctl.Common.Effect.{ok, raised}
use redfish_ctl.Common.Text.{join}
use redfish_ctl.Json.{Json, null, bool, int, neg, str, list, dict}
use redfish_ctl.Query.{ValueError, value_error, RedfishQuery, out_of_range, active_names, validate}

-- Missing, or a whole number of at least `k`; True counts as one, and False as zero.
abbrev pub Fits : ℕ → Json → Type 0
Fits k null = Unit
Fits k (bool true) = k ≤ 1
Fits k (bool false) = k ≤ 0
Fits k (int n) = k ≤ n
Fits k _ = ⊥

-- A query that the service can be sent.
abbrev pub IsValid : RedfishQuery → Bool → Type 0
unfolding active_names
IsValid q one_param_per_uri =
    Fits 0 q.top × Fits 1 q.expand_levels × (one_param_per_uri ≡ true → length (active_names q) ≤ 1)

test_below : (k n : ℕ) → ((ltb n k ≡ false) × (k ≤ n)) ⊎ ((ltb n k ≡ true) × ¬ (k ≤ n))
test_below k n = elim (Bool-cases (ltb n k)) [
  | inl below ↦ inr (below, λ h. ground arith)
  | inr above ↦ inl (above, ground arith)
]

out_of_range_lem :
    (k : ℕ) (v : Json)
    → ((out_of_range k v ≡ false) × Fits k v) ⊎ ((out_of_range k v ≡ true) × ¬ Fits k v)
out_of_range_lem k null = inl (refl, tt)
out_of_range_lem k (bool true) = test_below k 1
out_of_range_lem k (bool false) = test_below k 0
out_of_range_lem k (int n) = test_below k n
out_of_range_lem k (neg n) = inr (refl, λ h. h)
out_of_range_lem k (str s) = inr (refl, λ h. h)
out_of_range_lem k (list vs) = inr (refl, λ h. h)
out_of_range_lem k (dict fs) = inr (refl, λ h. h)

-- validate lets exactly the valid queries pass.
pub validate_lem :
    (q : RedfishQuery) (one : Bool)
    → (IsValid q one × (validate q one ≡ ok tt))
      ⊎ (¬ IsValid q one × (e : ValueError) × (validate q one ≡ raised e))
unfolding validate
validate_lem q one = elim (out_of_range_lem 0 q.top) [
  | inr (bad, unfit) ↦ inr (λ v. unfit v.0, value_error "$top must be an integer >= 0", rw bad refl)
  | inl (good, top) ↦ elim (out_of_range_lem 1 q.expand_levels) [
    | inr (bad, unfit) ↦
        inr (
          λ v. unfit v.1,
          value_error "$expand levels must be an integer >= 1",
          rw (good, bad) refl,
        )
    | inl (fine, levels) ↦ elim (Bool-cases (one && ltb 1 (length (active_names q)))) [
      | inl many ↦ inr (
        λ v. ground (arith, v.2),
        value_error (
            "this service supports only one query parameter per URI; got "
            <> join ", " (active_names q)),
        rw (good, fine, many) refl,
      )
      | inr few ↦ inl ((top, levels, λ single. ground arith), rw (good, fine, few) refl)
    ]
  ]
]

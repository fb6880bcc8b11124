-- ===== src/Ntp/Covers.antt =====
-- redfish_ctl/manager/cmd_ntp_set.py: the servers that a payload of the plan names.
use redfish_ctl.Common.{
  String, ◌≡◌, refl, Bool, true, false, ◌||◌, List, [], ◌∷◌, ◌==◌, ltb, length, All, map, arith,
  eq_refl, Bool-cases, inl, inr, contains,
}
use redfish_ctl.Common.Effect.Safe.{Holds}
use redfish_ctl.Json.{
  Json, Items, Fields, null, bool, int, neg, str, list, dict, nil, cons, end, field, items, object,
}
use redfish_ctl.Ntp.Plan.{
  Verdict, passed_over, planned, skips, ntp_payload, legacy_fields, legacy_verdict,
}

-- A text is one of the values in a JSON value.
mutual
  pub mentions : String → Json → Bool
  mentions t null = false
  mentions t (bool b) = false
  mentions t (int n) = false
  mentions t (neg n) = false
  mentions t (str u) = u == t
  mentions t (list vs) = mentions_item t vs
  mentions t (dict fs) = mentions_field t fs

  pub mentions_item : String → Items → Bool
  mentions_item t nil = false
  mentions_item t (cons v vs) = mentions t v || mentions_item t vs

  pub mentions_field : String → Fields → Bool
  mentions_field t end = false
  mentions_field t (field k v fs) = mentions t v || mentions_field t fs

-- A verdict of the loop: what it plans names every server.
abbrev pub Covers : List String → Verdict → Type 0
Covers servers passed_over = Unit
Covers servers (planned item) = All (λ t. mentions t item.payload ≡ true) servers
Covers servers (skips s) = Unit

mentions-texts :
    (t : String) (ts : List String) → mentions_item t (items (map str ts)) ≡ contains t ts
unfolding mentions_item
mentions-texts t [] = refl
mentions-texts t (u ∷ ts) = ground (arith, mentions-texts t ts)

All-contains :
    (P : String → Type 0) (all_of part : List String)
    → ((t : String) → contains t all_of ≡ true → P t)
    → ((t : String) → contains t part ≡ true → contains t all_of ≡ true)
    → All P part
All-contains P all_of [] h sub = tt
All-contains P all_of (t ∷ part) h sub = (
  h t (sub t (ground (arith, eq_refl t))),
  All-contains P all_of part h (λ u k. sub u (ground arith)),
)

pub ntp_payload-covers :
    (servers : List String) → All (λ t. mentions t (ntp_payload servers) ≡ true) servers
unfolding mentions
ntp_payload-covers servers =
    All-contains _ servers servers (λ t known. ground (arith, mentions-texts t servers))
      (λ t known. known)

legacy_fields-covers :
    (servers : List String)
    → ltb 2 (length servers) ≡ false
    → All (λ t. mentions t (object (legacy_fields servers)) ≡ true) servers
unfolding mentions
legacy_fields-covers [] few = tt
legacy_fields-covers (a ∷ []) few = (ground (arith, eq_refl a), tt)
legacy_fields-covers (a ∷ b ∷ []) few = (ground (arith, eq_refl a), (ground (arith, eq_refl b), tt))
legacy_fields-covers (a ∷ b ∷ c ∷ servers) few = absurd (ground arith)

pub legacy_verdict-Covers :
    (servers : List String) (id uri : Json) → Holds (Covers servers) (legacy_verdict servers id uri)
unfolding legacy_verdict
legacy_verdict-Covers servers id uri = elim (Bool-cases (ltb 2 (length servers))) [
  | inl many ↦ rw many tt
  | inr few ↦ rw few (legacy_fields-covers servers few)
]

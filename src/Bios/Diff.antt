-- ===== src/Bios/Diff.antt =====
-- redfish_ctl/bios/cmd_bios_profile.py: what the diff of a profile reports.
use redfish_ctl.Common.{
  ℕ, suc, ◌+◌, String, ◌≡◌, ◌↔◌, refl, ap, true, false, ◌&&◌, some, List, [], ◌∷◌, ◌=?◌, arith,
  length, All, Bool-cases, Option-cases, inl, inr,
}
use mathlib.Core.Path.{subst}
use redfish_ctl.Common.Dict.{Dict, lookup}
use redfish_ctl.Common.Effect.{ok, ok_inj}
use redfish_ctl.Json.{Json}
use redfish_ctl.Json.Equality.{equal}
use redfish_ctl.Bios.{
  RowStatus, matching, different, missing, DiffRow, Counts, BiosDiff, desired_attributes, row_of,
  tally, no_counts, diff_rows, diff_profile,
}

-- A row for each attribute, in order.
abbrev pub rows_for : Dict Json → Dict Json → List DiffRow
rows_for current [] = []
rows_for current ((name, desired) ∷ attributes) =
    row_of current name desired ∷ rows_for current attributes

-- The node has the attribute, with the value desired.
abbrev pub IsMet : Dict Json → String × Json → Type 0
IsMet current row = (v : Json) × (lookup row.0 current ≡ some v) × (equal v row.1 ≡ true)

-- How many attributes are not met, as another value is there, or none.
abbrev unmet : RowStatus → ℕ
unmet matching = 0
unmet different = 1
unmet missing = 1

abbrev unmet_count : Dict Json → Dict Json → ℕ
unmet_count current [] = 0
unmet_count current ((name, desired) ∷ attributes) =
    unmet (row_of current name desired).status + unmet_count current attributes

module _ (current : Dict Json) where
  diff_rows-rows :
      (attributes : Dict Json) (c : Counts)
      → (diff_rows current attributes c).0 ≡ rows_for current attributes
  unfolding diff_rows
  diff_rows-rows [] c = refl
  diff_rows-rows ((name, desired) ∷ attributes) c =
      ap (λ rows. row_of current name desired ∷ rows) (diff_rows-rows attributes _)

  -- How the counts grow.
  abbrev Grown : Counts → ℕ → ℕ → Counts → Type 0
  Grown c n unmet_n d =
      (d.total ≡ c.total + n)
      × (d.different_count + d.missing_count ≡ c.different_count + c.missing_count + unmet_n)
      × (d.matching_count + d.different_count + d.missing_count + c.total
          ≡ c.matching_count + c.different_count + c.missing_count + d.total)

  tally-Grown :
      (status : RowStatus) (c d : Counts) (n k : ℕ)
      → Grown (tally status c) n k d
      → Grown c (suc n) (unmet status + k) d
  tally-Grown matching c d n k h = ground arith
  tally-Grown different c d n k h = ground arith
  tally-Grown missing c d n k h = ground arith

  diff_rows-Grown :
      (attributes : Dict Json) (c : Counts)
      → Grown c
          (length attributes)
          (unmet_count current attributes)
          (diff_rows current attributes c).1
  unfolding diff_rows
  diff_rows-Grown [] c = (omega arith, omega arith, omega arith)
  diff_rows-Grown ((name, desired) ∷ attributes) c =
      tally-Grown (row_of current name desired).status c _ _ _
        (diff_rows-Grown attributes (tally (row_of current name desired).status c))

  IsMet-unmet :
      (name : String) (desired : Json)
      → IsMet current (name, desired) ↔ (unmet (row_of current name desired).status ≡ 0)
  unfolding row_of
  IsMet-unmet name desired = elim (Option-cases (lookup name current)) [
    | inl absent ↦
        (λ (v, held, same). absurd (ground arith), λ h. absurd (ground (arith, rw absent at h)))
    | inr (w, present) ↦ elim (Bool-cases (equal w desired)) [
      | inl same ↦ (λ _. rw (present, same) refl, λ _. (w, present, same))
      | inr other ↦ (
        λ (v, held, same). absurd (clash w v held present other same),
        λ h. absurd (ground (arith, rw (present, other) at h)),
      )
    ]
  ]
    where
      clash :
          (w v : Json)
          → lookup name current ≡ some v
          → lookup name current ≡ some w
          → equal w desired ≡ false
          → equal v desired ≡ true
          → ⊥
      clash w v held present other same = cc

  All-IsMet :
      (attributes : Dict Json)
      → All (IsMet current) attributes ↔ (unmet_count current attributes ≡ 0)
  All-IsMet [] = (λ h. refl, λ h. tt)
  All-IsMet ((name, desired) ∷ attributes) =
      let (to, from) = IsMet-unmet name desired in
      let (to_rest, from_rest) = All-IsMet attributes in
      (
        λ h. ground (arith, to h.0, to_rest h.1),
        λ h. (from (ground arith), from_rest (ground arith)),
      )

counts_lem :
    (current : Dict Json) (out : Counts) (n k : ℕ)
    → Grown current no_counts n k out
    → (out.total ≡ n)
      × (out.matching_count + out.different_count + out.missing_count ≡ n)
      × (((out.different_count =? 0) && (out.missing_count =? 0) ≡ true) ↔ (k ≡ 0))
counts_lem current out n k (total, unmet_ones, sum) =
    (omega arith, omega arith, (λ h. ground arith, λ h. ground arith))

-- The diff of a profile has one row for each attribute that the profile names, in order; its counts are
-- the number of attributes and add up to it; and it matches exactly if the node has every one of the
-- attributes with the value desired.
pub diff_profile_lem :
    (profile current attributes : Dict Json) (d : BiosDiff)
    → desired_attributes profile ≡ ok attributes
    → diff_profile profile current ≡ ok d
    → (d.attributes ≡ rows_for current attributes)
      × (d.summary.total ≡ length attributes)
      × (d.summary.matching_count + d.summary.different_count + d.summary.missing_count
          ≡ length attributes)
      × ((d.is_match ≡ true) ↔ All (IsMet current) attributes)
unfolding diff_profile
diff_profile_lem profile current attributes d named h =
    subst
      (λ x.
        (x.attributes ≡ rows_for current attributes)
        × (x.summary.total ≡ length attributes)
        × (x.summary.matching_count + x.summary.different_count + x.summary.missing_count
            ≡ length attributes)
        × ((x.is_match ≡ true) ↔ All (IsMet current) attributes))
      (ok_inj (rw named at h))
      (
        diff_rows-rows current attributes no_counts,
        counted.0,
        counted.1,
        (λ matches. met.0 (counted.2.0 matches), λ all_met. counted.2.1 (met.1 all_met)),
      )
  where
    met : (unmet_count current attributes ≡ 0) ↔ All (IsMet current) attributes
    met = ((All-IsMet current attributes).1, (All-IsMet current attributes).0)

    out : Counts
    out = (diff_rows current attributes no_counts).1

    counted :
        (out.total ≡ length attributes)
        × (out.matching_count + out.different_count + out.missing_count ≡ length attributes)
        × (((out.different_count =? 0) && (out.missing_count =? 0) ≡ true)
            ↔ (unmet_count current attributes ≡ 0))
    counted =
        counts_lem current out (length attributes) (unmet_count current attributes)
          (diff_rows-Grown current attributes no_counts)

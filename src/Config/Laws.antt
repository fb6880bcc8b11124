-- ===== src/Config/Laws.antt =====
-- redfish_ctl/config.py: the values that env_first gives.
use redfish_ctl.Common.{
  String, ◌≡◌, ◌⊎◌, inl, inr, refl, ap, ◌∙◌, Bool, true, false, Option, none, some, List, [], ◌∷◌,
  ◌==◌, ltb, length, All, contains, arith, eq_iff, eq_refl, Bool-cases, Option-cases,
}
use mathlib.Core.Path.{subst}
use redfish_ctl.Common.Dict.{Dict, lookup}
use redfish_ctl.Common.Effect.{ok, raised}
use redfish_ctl.Common.Text.{strip}
use redfish_ctl.Config.{Env, conflict, present, unique, stripped, conflict_text, settle, env_first}

abbrev or_later : Option String → Option String → Option String
or_later none later = later
or_later (some v) later = some v

-- The value of the first name that is set.
abbrev pub first_value : Env → List String → Option String → Option String
first_value env [] default = default
first_value env (n ∷ names) default = or_later (lookup n env) (first_value env names default)

-- No two of the names are set to values that differ by more than the space around them.
abbrev pub Agree : Env → List String → Type 0
Agree env names =
    (n m v w : String)
    → contains n names ≡ true
    → contains m names ≡ true
    → lookup n env ≡ some v
    → lookup m env ≡ some w
    → strip v ≡ strip w

contains-unique :
    (t : String) (ts : List String) → contains t ts ≡ true → contains t (unique ts) ≡ true
contains-unique t [] h = h
contains-unique t (u ∷ ts) h = ground (arith, contains-unique t ts, eq_iff u t)

single_member :
    (ts : List String) (t u : String)
    → ltb 1 (length ts) ≡ false
    → contains t ts ≡ true
    → contains u ts ≡ true
    → t ≡ u
single_member [] t u short ht hu = cc
single_member (a ∷ []) t u short ht hu = ground (arith, eq_iff a t, eq_iff a u)
single_member (a ∷ b ∷ ts) t u short ht hu = ground arith

unique-short :
    (t : String) (ts : List String) → All (λ u. u ≡ t) ts → (unique ts ≡ []) ⊎ (unique ts ≡ t ∷ [])
unique-short t [] h = inl refl
unique-short t (u ∷ ts) (e, h) = elim (unique-short t ts h) [
  | inl none_yet ↦ inr (rw (none_yet, e) refl)
  | inr known ↦ inr (rw (known, e) (rw (eq_refl t) refl))
]

module _ (env : Env) where
  present_value :
      (n v : String) (names : List String)
      → contains n names ≡ true
      → lookup n env ≡ some v
      → contains (strip v) (stripped (present env names)) ≡ true
  unfolding present
  present_value n v [] h e = cc
  present_value n v (m ∷ names) h e = elim (Bool-cases (m == n)) [
    | inl same ↦
        rw (ap (λ k. lookup k env) ((eq_iff m n).0 same), e) (ground (arith, eq_refl (strip v)))
    | inr other ↦ elim (Option-cases (lookup m env)) [
      | inl unset ↦ rw unset (present_value n v names (rw other at h) e)
      | inr (w, set) ↦ rw set (ground (arith, present_value n v names (rw other at h) e))
    ]
  ]

  -- What the values of the names that are set are all equal to, up to the space around them.
  present-All :
      (t : String) (names : List String)
      → ((m w : String) → contains m names ≡ true → lookup m env ≡ some w → strip w ≡ t)
      → All (λ u. u ≡ t) (stripped (present env names))
  unfolding present
  present-All t [] h = tt
  present-All t (m ∷ names) h = elim (Option-cases (lookup m env)) [
    | inl unset ↦ rw unset (present-All t names (λ k w i. h k w (ground arith)))
    | inr (w, set) ↦
        rw set (
          h m w (ground (arith, eq_refl m)) set,
          present-All t names (λ k w i. h k w (ground arith)),
        )
  ]

  first_of_present : Dict String → Option String → Option String
  first_of_present [] default = default
  first_of_present ((n, v) ∷ found) default = some v

  first_value-present :
      (names : List String) (default : Option String)
      → first_of_present (present env names) default ≡ first_value env names default
  unfolding present first_of_present
  first_value-present [] default = refl
  first_value-present (n ∷ names) default = elim (Option-cases (lookup n env)) [
    | inl unset ↦ rw unset (first_value-present names default)
    | inr (v, set) ↦ rw set refl
  ]

  -- The first name that is set is one of the names.
  present_head :
      (names : List String) (n v : String) (found : Dict String)
      → present env names ≡ (n, v) ∷ found
      → (contains n names ≡ true) × (lookup n env ≡ some v)
  unfolding present
  present_head [] n v found h = cc
  present_head (m ∷ names) n v found h = elim (Option-cases (lookup m env)) [
    | inl unset ↦
        let at_rest = present_head names n v found (rw unset at h) in
        (ground (arith, at_rest), at_rest.1)
    | inr (w, set) ↦
        let e = rw set at h in let same : m ≡ n = cc in (ground (arith, eq_iff m n), cc)
  ]

  present_tail_agrees :
      (names : List String) (n v : String) (found : Dict String)
      → present env names ≡ (n, v) ∷ found
      → Agree env names
      → All (λ u. u ≡ strip v) (stripped ((n, v) ∷ found))
  present_tail_agrees names n v found h agree =
      let head = present_head names n v found h in
      subst (λ d. All (λ u. u ≡ strip v) (stripped d)) h
        (present-All (strip v) names (λ m w i e. agree m n w v i head.0 e head.1))

  Agree-of_single :
      (names : List String)
      → ltb 1 (length (unique (stripped (present env names)))) ≡ false
      → Agree env names
  Agree-of_single names short n m v w hn hm ev ew =
      single_member (unique (stripped (present env names))) (strip v) (strip w) short
        (contains-unique (strip v) (stripped (present env names)) (present_value n v names hn ev))
        (contains-unique (strip w) (stripped (present env names)) (present_value m w names hm ew))

  single_of_Agree :
      (names : List String)
      → Agree env names
      → ltb 1 (length (unique (stripped (present env names)))) ≡ false
  single_of_Agree names agree = by_found (present env names) refl
    where
      by_found :
          (d : Dict String)
          → present env names ≡ d
          → ltb 1 (length (unique (stripped (present env names)))) ≡ false
      by_found [] h = rw h refl
      by_found ((n, v) ∷ found) h =
          elim (unique-short (strip v) (stripped ((n, v) ∷ found))
            (present_tail_agrees names n v found h agree)) [
              | inl none_yet ↦ rw (h, none_yet) refl
              | inr known ↦ rw (h, known) refl
            ]

  settle_lenient :
      (names : List String) (default : Option String) (d : Dict String) (warned : List String)
      → (settle names default false d warned).0 ≡ ok (first_of_present d default)
  unfolding settle first_of_present
  settle_lenient names default [] warned = refl
  settle_lenient names default ((n, v) ∷ d) warned = ground arith

  settle_single :
      (names : List String) (default : Option String) (strict : Bool) (d : Dict String)
      (warned : List String)
      → ltb 1 (length (unique (stripped d))) ≡ false
      → (settle names default strict d warned).0 ≡ ok (first_of_present d default)
  unfolding settle first_of_present
  settle_single names default strict [] warned h = refl
  settle_single names default strict ((n, v) ∷ d) warned h = ground arith

  settle-conflict :
      (names : List String) (default : Option String) (d : Dict String) (warned : List String)
      → ltb 1 (length (unique (stripped d))) ≡ true
      → (settle names default true d warned).0 ≡ raised (conflict (conflict_text names d))
  unfolding settle
  settle-conflict names default [] warned h = cc
  settle-conflict names default ((n, v) ∷ d) warned h = ground arith

  -- Not strict, env_first gives the value of the first name that is set, or the default. Strict, it
  -- gives the same if no two names are set to values that differ by more than the space around
  -- them, and raises a conflict if two are.
  pub env_first_resolves :
      (names : List String) (default : Option String) (warned : List String)
      → ((env_first env names default false warned).0 ≡ ok (first_value env names default))
        × ((Agree env names
              × ((env_first env names default true warned).0 ≡ ok (first_value env names default)))
            ⊎ (¬ Agree env names
                × ((env_first env names default true warned).0
                    ≡ raised (conflict (conflict_text names (present env names))))))
  unfolding env_first
  env_first_resolves names default warned = (
    settle_lenient names default (present env names) warned
        ∙ ap ok (first_value-present names default),
    elim (Bool-cases (ltb 1 (length (unique (stripped (present env names)))))) [
      | inl many ↦ inr (
        λ agree. ground (arith, single_of_Agree names agree),
        settle-conflict names default (present env names) warned many,
      )
      | inr short ↦ inl (
        Agree-of_single names short,
        settle_single names default true (present env names) warned short
            ∙ ap ok (first_value-present names default),
      )
    ],
  )

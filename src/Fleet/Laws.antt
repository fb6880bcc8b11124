-- ===== src/Fleet/Laws.antt =====
-- redfish_ctl/fleet/cmd_fleet.py: read_fleet, for any order in which the reads complete.
use redfish_ctl.Common.{
  ℕ, zero, suc, ◌+◌, ◌-◌, ◌≤◌, ◌<◌, ◌≡◌, ◌⊎◌, inl, inr, refl, ap, ◌∙◌, Option, none, some, List, [],
  ◌∷◌, ltb, ◌=?◌, if◌then◌else◌, length, get_elem?, map, arith, Bool-cases, Option-cases,
}
use redfish_ctl.Common.Int.{ℤ, pos, negsuc}
use redfish_ctl.Fleet.{
  FleetNode, Outcome, Row, Rows, row_at, set_row, Fleet, count_ok, collect, summarized,
  max_concurrency, node_row, complete, completed, read_fleet,
}

-- How often an index stands in a list.
abbrev pub times : ℕ → List ℕ → ℕ
times i [] = 0
times i (j ∷ js) = if j =? i then suc (times i js) else times i js

-- Each index below n completes exactly once, and no other.
abbrev pub IsCompletion : ℕ → List ℕ → Type 0
IsCompletion n order = (i : ℕ) → times i order ≡ (if ltb i n then 1 else 0)

row_at-set_row :
    (i j : ℕ) (r : Row) (rows : Rows)
    → row_at i (set_row j r rows) ≡ (if j =? i then some r else row_at i rows)
row_at-set_row i j r [] = refl
row_at-set_row i j r ((k, q) ∷ rows) = ground (arith, row_at-set_row i j r rows)

module _ (outcome : FleetNode → Outcome) (nodes : List FleetNode) where
  abbrev row_or : Option FleetNode → Option Row → Option Row
  row_or none later = later
  row_or (some node) later = some (node_row outcome node)

  row_at-complete :
      (i j : ℕ) (rows : Rows)
      → row_at i (complete outcome nodes j rows)
        ≡ (if j =? i then row_or (get_elem? nodes j) (row_at i rows) else row_at i rows)
  row_at-complete i j rows = elim (Option-cases (get_elem? nodes j)) [
    | inl beyond ↦ rw beyond (ground arith)
    | inr (node, found) ↦ rw found (row_at-set_row i j (node_row outcome node) rows)
  ]

  -- A row of the loop is that of its node, whenever its node completed.
  row_at-completed :
      (i : ℕ) (node : FleetNode) (order : List ℕ) (rows : Rows)
      → get_elem? nodes i ≡ some node
      → (1 ≤ times i order) ⊎ (row_at i rows ≡ some (node_row outcome node))
      → row_at i (completed outcome nodes order rows) ≡ some (node_row outcome node)
  unfolding completed
  row_at-completed i node [] rows found (inl h) = absurd (omega arith)
  row_at-completed i node [] rows found (inr h) = h
  row_at-completed i node (j ∷ order) rows found h =
      row_at-completed i node order (complete outcome nodes j rows) found
        (elim (Bool-cases (j =? i)) [
          | inl same ↦
              let e : j ≡ i = ground arith in
              inr (row_at-complete i j rows ∙ rw (same, e, found) refl)
          | inr other ↦ elim h [
            | inl later ↦ inl (rw other at later)
            | inr known ↦ inr (row_at-complete i j rows ∙ rw other known)
          ]
        ])

  collect-rows :
      (i : ℕ) (xs : List FleetNode) (rows : Rows)
      → ((k : ℕ) (node : FleetNode)
          → get_elem? xs k ≡ some node
          → row_at (i + k) rows ≡ some (node_row outcome node))
      → collect i (length xs) rows ≡ some (map (node_row outcome) xs)
  unfolding collect
  collect-rows i [] rows h = refl
  collect-rows i (x ∷ xs) rows h =
      let first : row_at i rows ≡ some (node_row outcome x) =
        ap (λ k. row_at k rows) (omega arith) ∙ h 0 x refl in
      let rest =
        collect-rows (suc i) xs rows
          (λ k node found. ap (λ m. row_at m rows) (omega arith) ∙ h (suc k) node found) in
      rw (first, rest) refl

-- How many of the rows are of a node that could not be read.
abbrev pub count_failed : List Row → ℕ
count_failed [] = 0
count_failed (r ∷ rows) = if r.is_ok then count_failed rows else suc (count_failed rows)

count_all : (rows : List Row) → count_ok rows + count_failed rows ≡ length rows
count_all [] = refl
count_all (r ∷ rows) = ground (arith, count_all rows)

length-map_row :
    (f : FleetNode → Row) (nodes : List FleetNode) → length (map f nodes) ≡ length nodes
length-map_row f [] = refl
length-map_row f (node ∷ nodes) = ap suc (length-map_row f nodes)

get_elem?-lt :
    (nodes : List FleetNode) (i : ℕ) (node : FleetNode)
    → get_elem? nodes i ≡ some node
    → i < length nodes
get_elem?-lt [] i node h = cc
get_elem?-lt (x ∷ nodes) zero node h = omega arith
get_elem?-lt (x ∷ nodes) (suc i) node h = omega (arith, get_elem?-lt nodes i node h)

-- The fleet as one thread would read it, node after node.
abbrev pub read_in_turn : (FleetNode → Outcome) → List FleetNode → Fleet
read_in_turn outcome nodes =
    let rows = map (node_row outcome) nodes in
    record {
      total = length nodes;
      ok_count = count_ok rows;
      failed = count_failed rows;
      nodes = rows;
    }

summarized-rows :
    (outcome : FleetNode → Outcome) (nodes : List FleetNode)
    → summarized (some (map (node_row outcome) nodes)) ≡ some (read_in_turn outcome nodes)
summarized-rows outcome nodes =
    let rows = map (node_row outcome) nodes in
    let total = length-map_row (node_row outcome) nodes in
    let all = count_all rows in
    let failed : length nodes - count_ok rows ≡ count_failed rows = omega arith in
    rw (total, failed) refl

-- In whatever order the reads complete, each once, the fleet is the one that a single thread would
-- read: a row for each node in the order of the inventory, how many nodes there are, how many were
-- read, and how many were not.
pub read_fleet_order :
    (outcome : FleetNode → Outcome) (nodes : List FleetNode) (order : List ℕ)
    → IsCompletion (length nodes) order
    → read_fleet outcome nodes order ≡ some (read_in_turn outcome nodes)
unfolding read_fleet
read_fleet_order outcome [] order once = refl
read_fleet_order outcome (node ∷ nodes) order once =
    let all = node ∷ nodes in
    ap summarized (
      collect-rows outcome all 0 all (completed outcome all order []) (λ k n found.
        ap (λ m. row_at m (completed outcome all order [])) (omega arith)
        ∙ row_at-completed outcome all k n order [] found
            (inl (ground (arith, once k, get_elem?-lt all k n found)))))
    ∙ summarized-rows outcome all

-- The pool has at least one thread, and where there are nodes at most one for each.
pub max_concurrency_bounds :
    (concurrency : ℤ) (n : ℕ)
    → (1 ≤ max_concurrency concurrency n) × (1 ≤ n → max_concurrency concurrency n ≤ n)
unfolding max_concurrency
max_concurrency_bounds (pos zero) n = ground arith
max_concurrency_bounds (pos (suc c)) n = ground arith
max_concurrency_bounds (negsuc c) n = ground arith

-- ===== src/Cache/Progress.antt =====
-- A run of the response cache in which every call comes to an end.
use redfish_ctl.Common.{
  ℕ, zero, suc, ◌+◌, ◌≤◌, ◌<◌, String, ◌≡◌, ◌⊎◌, inl, inr, refl, sym, ap, Option, Bool, true, false,
  none, some, List, [], ◌∷◌, ◌++◌, arith, All, Bool-cases,
}
use mathlib.Core.Path.{subst}
use redfish_ctl.Common.Effect.{Result}
use redfish_ctl.Cache.{
  in_flight, Shared, Point, trying, waiting, loading, returned, failed, Thread, copied, given,
  attempt, finish, notifies, woken, awake, Local, tries, loads, Step, moves, Run, done, further,
}
use redfish_ctl.Cache.Flight.{flag, is_loading, attempt-cases, finish-cases}
use redfish_ctl.Cache.Invariant.{loaders, calls, empty}
use redfish_ctl.Cache.Waiting.{is_waiting, Waits, IsLive, Step-IsLive, Run-IsLive, start-IsLive}

module _ {V E : Type 0} where
  abbrev is_trying : Point V E → Bool
  is_trying trying = true
  is_trying p = false

  abbrev pub is_ended : Point V E → Bool
  is_ended (returned v) = true
  is_ended (failed e) = true
  is_ended p = false

  abbrev pub IsEnded : Thread V E → Type 0
  IsEnded t = is_ended t.point ≡ true

  -- How far a call is from its end.
  abbrev weight : Point V E → ℕ
  weight trying = 2
  weight waiting = 3
  weight loading = 1
  weight (returned v) = 0
  weight (failed e) = 0

  abbrev total : List (Thread V E) → ℕ
  total [] = 0
  total (t ∷ ts) = weight t.point + total ts

  total-append : (xs ys : List (Thread V E)) → total (xs ++ ys) ≡ total xs + total ys
  total-append [] ys = omega arith
  total-append (x ∷ xs) ys = omega (arith, total-append xs ys)

  -- The first call that passes a test, if one does.
  abbrev Picked : (Point V E → Bool) → List (Thread V E) → Type 0
  Picked f ts =
      (before after : List (Thread V E)) × (k : String) × (p : Point V E) × (ts
        ≡ before ++ (record { key = k; point = p } ∷ after))
      × (f p ≡ true)

  pick :
      (f : Point V E → Bool) (ts : List (Thread V E))
      → All (λ t. f t.point ≡ false) ts ⊎ Picked f ts
  pick f [] = inl tt
  pick f (t ∷ ts) = elim (Bool-cases (f t.point)) [
    | inl here ↦ inr ([], ts, t.key, t.point, refl, here)
    | inr other ↦ elim (pick f ts) [
      | inl rest ↦ inl (other, rest)
      | inr (before, after, k, p, e, found) ↦ inr (t ∷ before, after, k, p, ap (◌∷◌ t) e, found)
    ]
  ]

  no_loaders :
      (j : String) (ts : List (Thread V E))
      → All (λ t. is_loading t.point ≡ false) ts
      → loaders j ts ≡ 0
  no_loaders j [] out = refl
  no_loaders j (t ∷ ts) (own, out) = ground (arith, no_loaders j ts out)

  -- A call that is not before a look, in its loader, or in a wait has ended.
  ended_point :
      (p : Point V E)
      → is_loading p ≡ false
      → is_trying p ≡ false
      → is_waiting p ≡ false
      → is_ended p ≡ true
  ended_point trying a b c = cc
  ended_point waiting a b c = cc
  ended_point loading a b c = cc
  ended_point (returned v) a b c = refl
  ended_point (failed e) a b c = refl

  All-IsEnded :
      (c : Shared V E) (ts : List (Thread V E))
      → ((j : String) → in_flight j c.inflight ≡ false)
      → All (λ t. is_loading t.point ≡ false) ts
      → All (λ t. is_trying t.point ≡ false) ts
      → All (Waits c) ts
      → All IsEnded ts
  All-IsEnded c [] idle out past waits = tt
  All-IsEnded c (t ∷ ts) idle (a, out) (b, past) (w, waits) =
      (ended_point t.point a b (quiet (is_waiting t.point) w), All-IsEnded c ts idle out past waits)
    where
      quiet : (b : Bool) → (b ≡ true → in_flight t.key c.inflight ≡ true) → b ≡ false
      quiet true h = let flies = h refl in let still = idle t.key in cc
      quiet false h = refl

module _ {V E : Type 0} (copy_error : V → Option E) where
  weight-woken : (p : Point V E) → weight (woken copy_error p) ≤ weight p
  weight-woken trying = omega arith
  weight-woken waiting = omega arith
  weight-woken loading = omega arith
  weight-woken (returned v) = omega arith
  weight-woken (failed e) = omega arith

  total-awake : (b : Bool) (ts : List (Thread V E)) → total (awake copy_error b ts) ≤ total ts
  total-awake false ts = omega arith
  total-awake true [] = omega arith
  total-awake true (t ∷ ts) = omega (arith, weight-woken t.point, total-awake true ts)

  weight-given : (v : V) → weight (given copy_error v) ≡ 0
  weight-given v = by_copy (copy_error v)
    where
      by_copy : (o : Option E) → weight (copied copy_error o v) ≡ 0
      by_copy none = refl
      by_copy (some e) = refl

  weight-finish :
      (k : String) (r : Result E V) (c : Shared V E) → weight (finish copy_error k r c).0 ≡ 0
  weight-finish k r c = elim (finish-cases copy_error k r c) [
    | inl (v, told, e) ↦ rw e refl
    | inr (inl (x, told, e)) ↦ rw e refl
    | inr (inr (x, v, untold, wrong, e)) ↦ rw e refl
  ]

  weight-attempt :
      (k : String) (c : Shared V E)
      → in_flight k c.inflight ≡ false
      → weight (attempt copy_error k c).0 ≤ 1
  weight-attempt k c free = elim (attempt-cases copy_error k c) [
    | inl (v, found, e) ↦ rw e (omega (arith, weight-given v))
    | inr (missing, inl (busy, e)) ↦ absurd cc
    | inr (missing, inr (other, e)) ↦ rw e (omega arith)
  ]

  -- A step to a state that is nearer to the end.
  abbrev Nearer : List (Thread V E) → Shared V E → Type 0
  Nearer ts c =
      (us : List (Thread V E)) × (d : Shared V E) × Step copy_error (ts, c) (us, d)
      × (total us < total ts)

  Nearer-moves :
      (before after : List (Thread V E)) (k : String) (p : Point V E) (q : Point V E × Shared V E)
      (b : Bool) (c : Shared V E)
      → Local copy_error k c p q b
      → weight q.0 < weight p
      → Nearer (before ++ (record { key = k; point = p } ∷ after)) c
  Nearer-moves before after k p q b c step less = (
    awake copy_error b before ++ (record { key = k; point = q.0 } ∷ awake copy_error b after),
    q.1,
    moves before after k p q b c step,
    omega (
      arith,
      less,
      total-append before (record { key = k; point = p } ∷ after),
      total-append (awake copy_error b before)
          (record { key = k; point = q.0 } ∷ awake copy_error b after),
      total-awake b before,
      total-awake b after,
    ),
  )

  module _ (outcome : String → Result E V) where
    load-Nearer :
        (before after : List (Thread V E)) (k : String) (p : Point V E) (c : Shared V E)
        → is_loading p ≡ true
        → Nearer (before ++ (record { key = k; point = p } ∷ after)) c
    load-Nearer before after k loading c h =
        Nearer-moves before after k loading (finish copy_error k (outcome k) c)
          (notifies copy_error (outcome k)) c (loads (outcome k))
          (omega (arith, weight-finish k (outcome k) c))
    load-Nearer before after k trying c h = absurd cc
    load-Nearer before after k waiting c h = absurd cc
    load-Nearer before after k (returned v) c h = absurd cc
    load-Nearer before after k (failed e) c h = absurd cc

    look-Nearer :
        (before after : List (Thread V E)) (k : String) (p : Point V E) (c : Shared V E)
        → in_flight k c.inflight ≡ false
        → is_trying p ≡ true
        → Nearer (before ++ (record { key = k; point = p } ∷ after)) c
    look-Nearer before after k trying c free h =
        Nearer-moves before after k trying (attempt copy_error k c) false c tries
          (omega (arith, weight-attempt k c free))
    look-Nearer before after k loading c free h = absurd cc
    look-Nearer before after k waiting c free h = absurd cc
    look-Nearer before after k (returned v) c free h = absurd cc
    look-Nearer before after k (failed e) c free h = absurd cc

    progress :
        (ts : List (Thread V E)) (c : Shared V E)
        → IsLive copy_error (ts, c)
        → All IsEnded ts ⊎ Nearer ts c
    progress ts c live = elim (pick is_loading ts) [
      | inr (before, after, k, p, e, busy) ↦
          inr (subst (λ us. Nearer us c) (sym e) (load-Nearer before after k p c busy))
      | inl out ↦
          let idle = λ (j : String).
            unflagged (in_flight j c.inflight) (live.flies j) (no_loaders j ts out) in
          elim (pick is_trying ts) [
            | inr (before, after, k, p, e, looks) ↦
                inr (
                  subst (λ us. Nearer us c) (sym e) (look-Nearer before after k p c (idle k) looks))
            | inl past ↦ inl (All-IsEnded c ts idle out past live.waits)
          ]
    ]
      where
        unflagged : {n : ℕ} (b : Bool) → flag b ≤ n → n ≡ 0 → b ≡ false
        unflagged b h z = ground arith

    -- On fuel that is no less than the distance from the end.
    each_ends_on_fuel :
        ((v : V) → copy_error v ≡ none)
        → (fuel : ℕ) (ts : List (Thread V E)) (c : Shared V E) → total ts ≤ fuel
        → IsLive copy_error (ts, c)
        → (s : List (Thread V E) × Shared V E) → Run copy_error s (ts, c)
        → (ended : List (Thread V E)) × (d : Shared V E) × Run copy_error s (ended, d)
          × All IsEnded ended
    each_ends_on_fuel copies zero ts c enough live s run = elim (progress ts c live) [
      | inl ended ↦ (ts, c, run, ended)
      | inr (us, d, step, less) ↦ absurd (omega arith)
    ]
    each_ends_on_fuel copies (suc fuel) ts c enough live s run = elim (progress ts c live) [
      | inl ended ↦ (ts, c, run, ended)
      | inr (us, d, step, less) ↦
          each_ends_on_fuel copies fuel us d (omega arith)
            (Step-IsLive copy_error copies (ts, c) (us, d) step live) s
            (further s (ts, c) (us, d) run step)
    ]

-- However the steps have interleaved so far, where a loader can give something for each key and every value
-- can be copied, the calls of get_or_load can go on such that each of them ends: none is left in a wait
-- that no notice ends.
pub each_can_end :
    {V E : Type 0} (copy_error : V → Option E) (ks : List String) (outcome : String → Result E V)
    (threads : List (Thread V E)) (c : Shared V E)
    → ((v : V) → copy_error v ≡ none)
    → Run copy_error (calls V E ks, empty V E) (threads, c)
    → (ended : List (Thread V E)) × (d : Shared V E) × Run copy_error (threads, c) (ended, d)
      × All IsEnded ended
each_can_end {V = V} {E = E} copy_error ks outcome threads c copies run =
    each_ends_on_fuel copy_error outcome copies (total threads) threads c (omega arith)
      (Run-IsLive copy_error copies (calls V E ks, empty V E) (threads, c) run
        (start-IsLive copy_error ks))
      (threads, c) (done (threads, c))

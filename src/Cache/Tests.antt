-- ===== src/Cache/Tests.antt =====
-- A run of two calls of one key: the second waits for the first one's loader.
use redfish_ctl.Common.{
  ℕ, ◌≤◌, All, String, ◌≡◌, ◌≢◌, refl, true, false, Option, none, some, List, [], ◌∷◌,
}
use redfish_ctl.Common.Dict.{lookup}
use redfish_ctl.Common.Effect.{ok}
use redfish_ctl.Cache.{
  Shared, Point, trying, waiting, loading, returned, failed, Thread, attempt, finish, tries, loads,
  Step, moves, Run, done, further,
}
use redfish_ctl.Cache.Progress.{IsEnded, each_can_end}
use redfish_ctl.Cache.Invariant.{loaders, single_flight, one_value}

abbrev World : Type 0
World = List (Thread ℕ String) × Shared ℕ String

abbrev world : Point ℕ String → Point ℕ String → Shared ℕ String → World
world p q c =
    (record { key = "/Systems"; point = p } ∷ record { key = "/Systems"; point = q } ∷ [], c)

abbrev copies : ℕ → Option String
copies v = none

abbrev busy : Shared ℕ String
busy = record { values = []; inflight = "/Systems" ∷ [] }

abbrev stored : Shared ℕ String
stored = record { values = ("/Systems", 7) ∷ []; inflight = [] }

abbrev idle : Shared ℕ String
idle = record { values = []; inflight = [] }

first_looks : Step copies (world trying trying idle) (world loading trying busy)
unfolding attempt lookup
first_looks =
    moves [] (record { key = "/Systems"; point = trying } ∷ []) "/Systems" trying
      (attempt copies "/Systems" idle) false idle tries

second_waits : Step copies (world loading trying busy) (world loading waiting busy)
unfolding attempt lookup
second_waits =
    moves (record { key = "/Systems"; point = loading } ∷ []) [] "/Systems" trying
      (attempt copies "/Systems" busy) false busy tries

-- The notice wakes the second call up.
first_stores : Step copies (world loading waiting busy) (world (returned 7) trying stored)
unfolding finish
first_stores =
    moves [] (record { key = "/Systems"; point = waiting } ∷ []) "/Systems" loading
      (finish copies "/Systems" (ok 7) busy) true busy (loads (ok 7))

second_looks :
    Step copies (world (returned 7) trying stored) (world (returned 7) (returned 7) stored)
unfolding attempt lookup
second_looks =
    moves (record { key = "/Systems"; point = returned 7 } ∷ []) [] "/Systems" trying
      (attempt copies "/Systems" stored) false stored tries

-- Where the copy of a value that was loaded raises, its key stays in flight, and the second call waits on.
first_fails_to_copy :
    Step (λ v. some "copy") (world loading waiting busy) (world (failed "copy") waiting busy)
unfolding finish
first_fails_to_copy =
    moves [] (record { key = "/Systems"; point = waiting } ∷ []) "/Systems" loading
      (finish (λ v. some "copy") "/Systems" (ok 7) busy) false busy (loads (ok 7))

both_return : Run copies (world trying trying idle) (world (returned 7) (returned 7) stored)
both_return =
    further _ _ _
      (further _ _ _
        (further _ _ _ (further _ _ _ (done (world trying trying idle)) first_looks) second_waits)
        first_stores)
      second_looks

single_flight_example :
    (loaders "/Systems" (world (returned 7) (returned 7) stored).0 ≤ 1)
    × (lookup "/Systems" stored.values ≢ none
        → loaders "/Systems" (world (returned 7) (returned 7) stored).0 ≡ 0)
single_flight_example =
    single_flight ℕ String copies ("/Systems" ∷ "/Systems" ∷ [])
      (world (returned 7) (returned 7) stored).0 stored both_return "/Systems"

one_value_example : (◌≡◌ {A = ℕ} 7 7) × (lookup "/Systems" stored.values ≡ some 7)
one_value_example =
    one_value ℕ String copies ("/Systems" ∷ "/Systems" ∷ [])
      (world (returned 7) (returned 7) stored).0 stored both_return 0 1 "/Systems" 7 7 refl refl

abbrev stuck : World
stuck = world loading waiting busy

one_waits : Run copies (world trying trying idle) stuck
one_waits = further _ _ _ (further _ _ _ (done (world trying trying idle)) first_looks) second_waits

each_can_end_example :
    (ended : List (Thread ℕ String)) × (d : Shared ℕ String) × Run copies stuck (ended, d)
    × All IsEnded ended
each_can_end_example =
    each_can_end copies ("/Systems" ∷ "/Systems" ∷ []) (λ k. ok 7) stuck.0 stuck.1 (λ v. refl)
      one_waits

-- ===== src/Nfqlb/Offset.antt =====
-- pkg/nfqlb/offset.go: where the fwmarks of a new service start.
-- `startingOffset` and `maxTargets` are natural numbers here (the program uses 5000 and 100).
pub mod Minimal
pub mod Cases
use l_3_4_gateway_api_poc.Base.{
  ℕ, zero, suc, ◌+◌, ◌-◌, ◌≡◌, refl, Bool, ◌&&◌, ◌||◌, Option, none, some, List, [], ◌∷◌, ltb, leb,
  ◌==◌, if◌then◌else◌, max_int, length,
}
use l_3_4_gateway_api_poc.Nfqlb.Service.{Service}

-- A number, `errIdentifierOffset`, or no answer within the fuel.
pub data Search : Type 0 where
  found : ℕ → Search
  exhausted : Search
  unfinished : Search

-- `currentSearchStart <= serviceEnd && currentSearchEnd >= serviceStart`, where each end is a
-- start plus a count less 1 (a difference that may be -1): `a <= b - 1` is `a < b`.
unfoldable pub overlaps : ℕ → ℕ → Service → Bool
overlaps offset max_target service =
    ltb offset (service.offset + service.max_targets) && ltb service.offset (offset + max_target)

-- The inner loop: where the first overlapping service ends.
unfoldable pub first_overlap : List Service → ℕ → ℕ → Option ℕ
unfolding overlaps
first_overlap [] offset max_target = none
first_overlap (service ∷ services) offset max_target =
    if overlaps offset max_target service
    then some (service.offset + service.max_targets)
    else first_overlap services offset max_target

-- `offset >= (math.MaxInt - maxTarget + 1)`. At `maxTarget` 0 the right side wraps around to the
-- least `int`, and the test holds.
unfoldable pub at_limit : ℕ → ℕ → Bool
at_limit offset max_target = max_target == 0 || leb (max_int - max_target + 1) offset

-- The outer loop; `continue search` is one more round.
unfoldable pub search_from : ℕ → List Service → ℕ → ℕ → Search
unfolding first_overlap at_limit
search_from zero services offset max_target = unfinished
search_from (suc fuel) services offset max_target =
    if at_limit offset max_target
    then exhausted
    else elim (first_overlap services offset max_target) [
      | none ↦ found offset
      | some next ↦ search_from fuel services next max_target
    ]

unfoldable pub get_offset : ℕ → List Service → ℕ → Search
unfolding search_from
get_offset starting_offset services max_target =
    search_from (suc (length services)) services starting_offset max_target

-- ===== src/Manager/Slices.antt =====
-- `sameStringSlice`. A count in the map is never 0, so the counts are natural numbers.
pub mod Counts
use l_3_4_gateway_api_poc.Base.{
  ℕ, zero, suc, ◌-◌, Bool, true, false, Option, none, some, List, [], ◌∷◌, Text, text_discrete,
  lookup, insert, delete, length, ◌==◌, if◌then◌else◌,
}

-- `diff[x]`, 0 for a missing key
abbrev pub or_zero : Option ℕ → ℕ
or_zero none = 0
or_zero (some n) = n

-- The loop over the first slice.
unfoldable pub count_up : List Text → List (Text × ℕ) → List (Text × ℕ)
count_up [] diff = diff
count_up (x ∷ xs) diff =
    count_up xs (insert text_discrete x (suc (or_zero (lookup text_discrete x diff))) diff)

-- One round of the loop over the second slice, for a count that is there.
abbrev pub take_one : Text → ℕ → List (Text × ℕ) → List (Text × ℕ)
take_one x n diff =
    if n - 1 == 0 then delete text_discrete x diff else insert text_discrete x (n - 1) diff

-- The loop over the second slice; `none` where it returns false.
unfoldable pub count_down : List Text → List (Text × ℕ) → Option (List (Text × ℕ))
count_down [] diff = some diff
count_down (x ∷ xs) diff = elim (lookup text_discrete x diff) [
  | none ↦ none
  | some n ↦ count_down xs (take_one x n diff)
]

unfoldable pub same_string_slice : List Text → List Text → Bool
unfolding count_up count_down
same_string_slice a b =
    if length a == length b
    then elim (count_down b (count_up a [])) [
      | none ↦ false
      | some [] ↦ true
      | some (x ∷ xs) ↦ false
    ]
    else false

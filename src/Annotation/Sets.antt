-- ===== src/Annotation/Sets.antt =====
-- `equalMapSlice`: the keys of a map are the elements of a slice.
use l_3_4_gateway_api_poc.Base.{
  ◌≡◌, refl, true, some, List, [], ◌∷◌, Text, text_discrete, arith, length, In, Distinct, has,
  has-In, has_not-In, length-Distinct, Bool-cases, Option-cases, ◌⊎◌, ◌↔◌, inl, inr,
}
use l_3_4_gateway_api_poc.Annotation.{put, slice_map, equal_map_slice}

put_cases : (z x : Text) (xs : List Text) → In z (put text_discrete x xs) → (z ≡ x) ⊎ In z xs
unfolding put
put_cases z x xs m = elim (Bool-cases (has text_discrete x xs)) [
  | inl h ↦ inr (rw (h, put) at m)
  | inr h ↦ rw (h, put) at m
]

In-put : (x : Text) (xs : List Text) → In x (put text_discrete x xs)
unfolding put
In-put x xs = elim (Bool-cases (has text_discrete x xs)) [
  | inl h ↦ rw (h, put) (has-In text_discrete x xs h)
  | inr h ↦ rw (h, put) (inl refl)
]

In-put_kept : (z x : Text) (xs : List Text) → In z xs → In z (put text_discrete x xs)
unfolding put
In-put_kept z x xs m = elim (Bool-cases (has text_discrete x xs)) [
  | inl h ↦ rw (h, put) m
  | inr h ↦ rw (h, put) (inr m)
]

put-Distinct : (x : Text) (xs : List Text) → Distinct xs → Distinct (put text_discrete x xs)
unfolding put
put-Distinct x xs d = elim (Bool-cases (has text_discrete x xs)) [
  | inl h ↦ rw (h, put) d
  | inr h ↦ rw (h, put) (has_not-In text_discrete x xs h, d)
]

-- What a loop that does not return false has seen: what it had seen before and the slice, all of
-- it in the map.
abbrev Seen : List Text → List Text → List Text → List Text → Type 0
Seen compared slice before after =
    Distinct after
    × ((z : Text) → In z after → In z before ⊎ In z slice)
    × ((z : Text) → In z before ⊎ In z slice → In z after)
    × ((z : Text) → In z slice → In z compared)

slice_map-Seen :
    (compared slice before after : List Text)
    → Distinct before
    → slice_map compared slice before ≡ some after
    → Seen compared slice before after
unfolding slice_map
slice_map-Seen compared [] before after d h =
    let same : before ≡ after = cc in
    (
      rw (← same) d,
      (λ z m. inl (rw same m)),
      (λ z. elim [ inl m ↦ rw (← same) m | inr m ↦ absurd m ]),
      (λ z m. absurd m),
    )
slice_map-Seen compared (x ∷ xs) before after d h =
    elim (Bool-cases (has text_discrete x compared)) [
      | inr gone ↦ absurd (ground arith)
      | inl there ↦
          let (distinct, back, into, sub) =
            slice_map-Seen compared xs (put text_discrete x before) after (put-Distinct x before d)
              (rw (there, slice_map) at h) in
          (
            distinct,
            (λ z m. elim (back z m) [
              | inl p ↦ elim (put_cases z x before p) [ inl e ↦ inr (inl e) | inr o ↦ inl o ]
              | inr o ↦ inr (inr o)
            ]),
            (λ z. elim [
              | inl m ↦ into z (inl (In-put_kept z x before m))
              | inr m ↦ elim m [
                | inl e ↦ into z (inl (rw e (In-put x before)))
                | inr o ↦ into z (inr o)
              ]
            ]),
            (λ z. elim [ inl e ↦ rw e (has-In text_discrete x compared there) | inr m ↦ sub z m ]),
          )
    ]

-- A map of no more keys than distinct keys of it has only those.
all_seen :
    (compared seen : List Text)
    → Distinct seen
    → ((z : Text) → In z seen → In z compared)
    → length seen ≡ length compared
    → (x : Text) → In x compared
    → In x seen
all_seen compared seen d sub n x m = elim (Bool-cases (has text_discrete x seen)) [
  | inl h ↦ has-In text_discrete x seen h
  | inr h ↦
      let count =
        length-Distinct text_discrete (x ∷ seen) compared (has_not-In text_discrete x seen h, d)
          (λ z. elim [ inl e ↦ rw e m | inr o ↦ sub z o ]) in
      absurd (omega arith)
]

-- Where equalMapSlice holds, a string is an element of the slice exactly if it is a key of the map.
pub equal_map_slice-In :
    (compared slice : List Text) (x : Text)
    → equal_map_slice compared slice ≡ true
    → In x slice ↔ In x compared
unfolding equal_map_slice
equal_map_slice-In compared slice x h = elim (Option-cases (slice_map compared slice [])) [
  | inl n ↦ absurd (ground arith)
  | inr (seen, s) ↦
      let (d, back, into, sub) = slice_map-Seen compared slice [] seen tt s in
      let from_slice : (z : Text) → In z seen → In z slice =
        λ z m. elim (back z m) [ inl e ↦ absurd e | inr o ↦ o ] in
      let same : length seen ≡ length compared = ground arith in
      (sub x, λ m. from_slice x (all_seen compared seen d (λ z k. sub z (from_slice z k)) same x m))
]

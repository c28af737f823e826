-- ===== src/Nfqlb/Offset/Minimal.antt =====
-- The search for an offset ends, and finds the least one that fits.
use l_3_4_gateway_api_poc.Base.{
  ℕ, zero, suc, ◌+◌, ◌≤◌, ◌<◌, ◌≡◌, ◌≢◌, refl, none, some, List, [], ◌∷◌, ltb, arith, Bool-cases,
  Option-cases, dec_lt, if◌then◌else◌, max_int, length, All, In, inl, inr,
}
use l_3_4_gateway_api_poc.Nfqlb.Service.{Service}
use l_3_4_gateway_api_poc.Nfqlb.Offset.{
  found, exhausted, unfinished, overlaps, first_overlap, at_limit, search_from, get_offset,
}

-- The ranges of fwmarks `[o, o + n)` and `[s.offset, s.offset + s.max_targets)` share no number.
abbrev pub Apart : ℕ → ℕ → Service → Type 0
Apart o n s = (x : ℕ) → o ≤ x → x < o + n → s.offset ≤ x → x < s.offset + s.max_targets → ⊥

abbrev pub Clash : ℕ → ℕ → List Service → Type 0
Clash o n services =
    (s : Service) × In s services × (o < s.offset + s.max_targets) × (s.offset < o + n)

-- How many services end behind the offset: the search passes each of them once.
abbrev ahead : List Service → ℕ → ℕ
ahead [] o = 0
ahead (s ∷ ss) o = if ltb o (s.offset + s.max_targets) then suc (ahead ss o) else ahead ss o

ahead_antitone : (ss : List Service) (o p : ℕ) → o ≤ p → ahead ss p ≤ ahead ss o
ahead_antitone [] o p h = omega arith
ahead_antitone (s ∷ ss) o p h = ground (arith, ahead_antitone ss o p h)

ahead-le-length : (ss : List Service) (o : ℕ) → ahead ss o ≤ length ss
ahead-le-length [] o = omega arith
ahead-le-length (s ∷ ss) o = ground (arith, ahead-le-length ss o)

module _ (o n : ℕ) where
  first_overlap-gt : (ss : List Service) (e : ℕ) → first_overlap ss o n ≡ some e → o < e
  unfolding first_overlap
  first_overlap-gt [] e h = cc
  first_overlap-gt (s ∷ ss) e h = ground (arith, first_overlap-gt ss e)

  first_overlap-ahead :
      (ss : List Service) (e : ℕ) → first_overlap ss o n ≡ some e → ahead ss e < ahead ss o
  unfolding first_overlap
  first_overlap-ahead [] e h = cc
  first_overlap-ahead (s ∷ ss) e h =
      ground (arith, first_overlap-ahead ss e, first_overlap-gt ss e, ahead_antitone ss o e)

  -- Every offset up to the end of the overlapping service overlaps it too.
  first_overlap-Clash :
      (ss : List Service) (e p : ℕ) → first_overlap ss o n ≡ some e → o ≤ p → p < e → Clash p n ss
  unfolding first_overlap overlaps
  first_overlap-Clash [] e p h l u = cc
  first_overlap-Clash (s ∷ ss) e p h l u = elim (Bool-cases (overlaps o n s)) [
    | inl hit ↦ (s, inl refl, ground arith, ground arith)
    | inr miss ↦
        let (t, m, a, b) = first_overlap-Clash ss e p (ground arith) l u in (t, inr m, a, b)
  ]

  first_overlap-none : (ss : List Service) → first_overlap ss o n ≡ none → All (Apart o n) ss
  unfolding first_overlap overlaps
  first_overlap-none [] h = tt
  first_overlap-none (s ∷ ss) h = (λ x a b c d. ground arith, first_overlap-none ss (ground arith))

module _ (ss : List Service) (n : ℕ) where
  search_from-total : (fuel o : ℕ) → ahead ss o < fuel → search_from fuel ss o n ≢ unfinished
  unfolding search_from
  search_from-total zero o h = absurd (omega arith)
  search_from-total (suc fuel) o h = elim (Option-cases (first_overlap ss o n)) [
    | inl e ↦ rw (e, search_from) (ground arith)
    | inr (p, e) ↦
        rw (e, search_from)
          (let rec = search_from-total fuel p (omega (arith, first_overlap-ahead o n ss p e)) in
            ground (arith, rec))
  ]

  -- What a found offset satisfies, from `o` on.
  abbrev Found : ℕ → ℕ → Type 0
  Found o r =
      (o ≤ r) × (r + n ≤ max_int) × All (Apart r n) ss × ((p : ℕ) → o ≤ p → p < r → Clash p n ss)

  search_from-found : (fuel o r : ℕ) → n ≤ max_int → search_from fuel ss o n ≡ found r → Found o r
  unfolding search_from at_limit
  search_from-found zero o r small h = cc
  search_from-found (suc fuel) o r small h = elim (Option-cases (first_overlap ss o n)) [
    | inl e ↦
        let same : o ≡ r = ground arith in
        let fits : o + n ≤ max_int = ground arith in
        rw (← same) (omega arith, fits, first_overlap-none o n ss e, λ p a b. absurd (omega arith))
    | inr (q, e) ↦
        let (a, b, c, d) = search_from-found fuel q r small (ground arith) in
        let up = first_overlap-gt o n ss q e in
        (
          omega arith,
          b,
          c,
          λ p l u. elim (dec_lt p q) [
            | yes lt ↦ first_overlap-Clash o n ss q p e l lt
            | no ge ↦ d p (omega arith) u
          ],
        )
  ]

  search_from-exhausted :
      (fuel o r : ℕ)
      → search_from fuel ss o n ≡ exhausted
      → o ≤ r
      → 0 < n
      → r + n ≤ max_int
      → Clash r n ss
  unfolding search_from at_limit
  search_from-exhausted zero o r h l p u = cc
  search_from-exhausted (suc fuel) o r h l p u = elim (Option-cases (first_overlap ss o n)) [
    | inl e ↦ absurd (ground arith)
    | inr (q, e) ↦ elim (dec_lt r q) [
      | yes lt ↦ first_overlap-Clash o n ss q r e l lt
      | no ge ↦ search_from-exhausted fuel q r (ground arith) (omega arith) p u
    ]
  ]

-- The search for an offset always ends with an offset or with the error: as many rounds as there
-- are services, and one more, are enough.
pub get_offset-total : (start : ℕ) (ss : List Service) (n : ℕ) → get_offset start ss n ≢ unfinished
unfolding get_offset
get_offset-total start ss n =
    search_from-total ss n (suc (length ss)) start (omega (arith, ahead-le-length ss start))

-- An offset that is found is the least one from the start on whose range of fwmarks meets no
-- service's range: every smaller one clashes with some service. The range fits an int, if the
-- number of targets does.
pub get_offset-minimal :
    (start : ℕ) (ss : List Service) (n r : ℕ)
    → n ≤ max_int
    → get_offset start ss n ≡ found r
    → (start ≤ r)
      × (r + n ≤ max_int)
      × All (Apart r n) ss
      × ((p : ℕ) → start ≤ p → p < r → Clash p n ss)
unfolding get_offset
get_offset-minimal start ss n r small h = search_from-found ss n (suc (length ss)) start r small h

-- Where the search fails for a positive number of targets there is no room: every offset from the
-- start on whose range fits an int clashes with a service.
pub get_offset-exhausted :
    (start : ℕ) (ss : List Service) (n r : ℕ)
    → 0 < n
    → get_offset start ss n ≡ exhausted
    → start ≤ r
    → r + n ≤ max_int
    → Clash r n ss
unfolding get_offset
get_offset-exhausted start ss n r p h l u =
    search_from-exhausted ss n (suc (length ss)) start r h l p u

-- ===== src/Nfqlb/LoadBalancer/Ranges.antt =====
-- Services whose ranges of fwmarks do not meet, under the updates of the map of services.
use l_3_4_gateway_api_poc.Base.{
  ℕ, ◌+◌, ◌≤◌, ◌<◌, ◌≡◌, ◌≢◌, some, [], ◌∷◌, Text, pos, text_discrete, lookup, insert, delete,
  arith, max_int, All, int_add_pos, if_pos, if_neg,
}
use l_3_4_gateway_api_poc.Nfqlb.Offset.Minimal.{Apart}
use l_3_4_gateway_api_poc.Nfqlb.Service.{Service, fwmark_of}
use l_3_4_gateway_api_poc.Nfqlb.LoadBalancer.{Services, values}

abbrev pub ApartFrom : Service → Text × Service → Type 0
ApartFrom s e = Apart e.1.offset e.1.max_targets s

-- Every range starts behind `start`, ends within an `int`, and meets none of the later ones.
abbrev pub Allocated : ℕ → Services → Type 0
Allocated start [] = Unit
Allocated start ((k, s) ∷ m) =
    (start ≤ s.offset)
    × (s.offset + s.max_targets ≤ max_int)
    × All (ApartFrom s) m
    × Allocated start m

-- The range of fwmarks of a service.
abbrev pub SameRange : Service → Service → Type 0
SameRange s t = (s.offset ≡ t.offset) × (s.max_targets ≡ t.max_targets)

ApartFrom-values :
    (t : Service) (m : Services)
    → All (Apart t.offset t.max_targets) (values m)
    → All (ApartFrom t) m
ApartFrom-values t [] h = tt
ApartFrom-values t ((j, s) ∷ m) h = (λ x p q r u. h.0 x r u p q, ApartFrom-values t m h.1)

ApartFrom-same :
    (s t : Service) (m : Services) → SameRange s t → All (ApartFrom s) m → All (ApartFrom t) m
ApartFrom-same s t [] e h = tt
ApartFrom-same s t ((j, u) ∷ m) e h =
    (λ x p q r v. h.0 x p q (omega arith) (omega arith), ApartFrom-same s t m e h.1)

delete-ApartFrom :
    (s : Service) (k : Text) (m : Services)
    → All (ApartFrom s) m
    → All (ApartFrom s) (delete text_discrete k m)
unfolding delete
delete-ApartFrom s k [] h = tt
delete-ApartFrom s k ((j, t) ∷ m) h = elim (text_discrete k j) [
  | yes e ↦ rw (if_pos _ e) (delete-ApartFrom s k m h.1)
  | no ne ↦ rw (if_neg _ ne) (h.0, delete-ApartFrom s k m h.1)
]

pub delete-Allocated :
    (start : ℕ) (k : Text) (m : Services)
    → Allocated start m
    → Allocated start (delete text_discrete k m)
unfolding delete
delete-Allocated start k [] h = tt
delete-Allocated start k ((j, t) ∷ m) h = elim (text_discrete k j) [
  | yes e ↦ rw (if_pos _ e) (delete-Allocated start k m h.3)
  | no ne ↦ rw (if_neg _ ne) (h.0, h.1, delete-ApartFrom t k m h.2, delete-Allocated start k m h.3)
]

-- A new name, for a service apart from all the others.
insert_new-ApartFrom :
    (s t : Service) (k : Text) (m : Services)
    → All (ApartFrom s) m
    → Apart t.offset t.max_targets s
    → All (ApartFrom s) (insert text_discrete k t m)
unfolding insert
insert_new-ApartFrom s t k [] h a = (a, tt)
insert_new-ApartFrom s t k ((j, u) ∷ m) h a = elim (text_discrete k j) [
  | yes e ↦ rw (if_pos _ e) (a, h.1)
  | no ne ↦ rw (if_neg _ ne) (h.0, insert_new-ApartFrom s t k m h.1 a)
]

pub insert_new-Allocated :
    (start : ℕ) (t : Service) (k : Text) (m : Services)
    → Allocated start m
    → start ≤ t.offset
    → t.offset + t.max_targets ≤ max_int
    → All (Apart t.offset t.max_targets) (values m)
    → Allocated start (insert text_discrete k t m)
unfolding insert
insert_new-Allocated start t k [] h l u a = (l, u, tt, tt)
insert_new-Allocated start t k ((j, s) ∷ m) h l u a = elim (text_discrete k j) [
  | yes e ↦ rw (if_pos _ e) (l, u, ApartFrom-values t m a.1, h.3)
  | no ne ↦
      rw (if_neg _ ne) (
        h.0,
        h.1,
        insert_new-ApartFrom s t k m h.2 a.0,
        insert_new-Allocated start t k m h.3 l u a.1,
      )
]

-- A known name, whose service keeps its range.
update-ApartFrom :
    (s t u : Service) (k : Text) (m : Services)
    → lookup text_discrete k m ≡ some t
    → SameRange t u
    → All (ApartFrom s) m
    → All (ApartFrom s) (insert text_discrete k u m)
unfolding lookup insert
update-ApartFrom s t u k [] e r h = absurd (cc)
update-ApartFrom s t u k ((j, v) ∷ m) e r h = elim (text_discrete k j) [
  | yes same ↦
      let now : v ≡ t = ground arith in
      rw (if_pos _ same) (λ x p q a b. h.0 x (rw now (omega arith)) (rw now (omega arith)) a b, h.1)
  | no ne ↦ rw (if_neg _ ne) (h.0, update-ApartFrom s t u k m (ground arith) r h.1)
]

pub update-Allocated :
    (start : ℕ) (t u : Service) (k : Text) (m : Services)
    → lookup text_discrete k m ≡ some t
    → SameRange t u
    → Allocated start m
    → Allocated start (insert text_discrete k u m)
unfolding lookup insert
update-Allocated start t u k [] e r h = absurd (cc)
update-Allocated start t u k ((j, v) ∷ m) e r h = elim (text_discrete k j) [
  | yes same ↦
      let now : v ≡ t = ground arith in
      rw (if_pos _ same) (ground arith, ground arith, ApartFrom-same t u m r (rw (← now) h.2), h.3)
  | no ne ↦ rw (if_neg _ ne) (
    h.0,
    h.1,
    update-ApartFrom v t u k m (ground arith) r h.2,
    update-Allocated start t u k m (ground arith) r h.3,
  )
]

-- Two names of an allocated map have ranges that do not meet.
pub lookup-ApartFrom :
    (s t : Service) (k : Text) (m : Services)
    → All (ApartFrom s) m
    → lookup text_discrete k m ≡ some t
    → ApartFrom s (k, t)
unfolding lookup
lookup-ApartFrom s t k [] h e = absurd (cc)
lookup-ApartFrom s t k ((j, u) ∷ m) h e = elim (text_discrete k j) [
  | yes same ↦ let now : u ≡ t = ground arith in rw (← now) h.0
  | no ne ↦ lookup-ApartFrom s t k m h.1 (ground arith)
]

pub lookup-Apart :
    (start : ℕ) (s t : Service) (a b : Text) (m : Services)
    → Allocated start m
    → lookup text_discrete a m ≡ some s
    → lookup text_discrete b m ≡ some t
    → a ≢ b
    → ApartFrom s (b, t)
unfolding lookup
lookup-Apart start s t a b [] h e f ne = absurd (cc)
lookup-Apart start s t a b ((j, u) ∷ m) h e f ne = elim (text_discrete a j) [
  | yes same ↦
      let now : u ≡ s = ground arith in lookup-ApartFrom s t b m (rw (← now) h.2) (ground arith)
  | no other ↦ elim (text_discrete b j) [
    | yes same ↦
        let now : u ≡ t = ground arith in
        let back = lookup-ApartFrom t s a m (rw (← now) h.2) (ground arith) in
        λ x l r q v. back x q v l r
    | no other' ↦ lookup-Apart start s t a b m h.3 (ground arith) (ground arith) ne
  ]
]

pub lookup-fits :
    (start : ℕ) (s : Service) (k : Text) (m : Services)
    → Allocated start m
    → lookup text_discrete k m ≡ some s
    → (start ≤ s.offset) × (s.offset + s.max_targets ≤ max_int)
unfolding lookup
lookup-fits start s k [] h e = absurd (cc)
lookup-fits start s k ((j, u) ∷ m) h e = elim (text_discrete k j) [
  | yes same ↦ let now : u ≡ s = ground arith in rw (← now) (h.0, h.1)
  | no other ↦ lookup-fits start s k m h.3 (ground arith)
]

pub fwmark_of-pos :
    (start : ℕ) (s : Service) (k : Text) (m : Services) (i : ℕ)
    → Allocated start m
    → lookup text_discrete k m ≡ some s
    → i < s.max_targets
    → fwmark_of s (pos i) ≡ pos (i + s.offset)
fwmark_of-pos start s k m i h e lt =
    int_add_pos i s.offset (omega (arith, (lookup-fits start s k m h e).1))

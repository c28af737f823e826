-- ===== src/Nfqlb/Sets/Bytes.antt =====
-- The ranges of `updateSet` by their bytes and by their texts.
use l_3_4_gateway_api_poc.Base.{
  ℕ, ◌<◌, ◌≡◌, refl, ap, ◌∙◌, Bool, true, false, List, [], ◌∷◌, ◌++◌, Text, text_discrete, has, In,
  All, length, ite, inl, inr,
}
use l_3_4_gateway_api_poc.Net.{Ip}
use l_3_4_gateway_api_poc.Nfqlb.Platform.{SetElement, Platform}
use l_3_4_gateway_api_poc.Nfqlb.Sets.{Range, set_element_to_string}
use l_3_4_gateway_api_poc.Nfqlb.Sets.Update.{texts_of}

bool_discrete : Discrete Bool
bool_discrete true true = yes refl
bool_discrete true false = no (λ e. cc)
bool_discrete false true = no (λ e. cc)
bool_discrete false false = yes refl

element_discrete : Discrete SetElement
element_discrete a b = elim (text_discrete a.key b.key) [
  | yes p ↦ elim (bool_discrete a.interval_end b.interval_end) [
    | yes q ↦ yes (λ i. record { key = p i; interval_end = q i })
    | no q ↦ no (λ e. q (λ i. (e i).interval_end))
  ]
  | no p ↦ no (λ e. p (λ i. (e i).key))
]

pub range_discrete : Discrete Range
range_discrete [] [] = yes refl
range_discrete [] (b ∷ bs) = no (λ e. cc)
range_discrete (a ∷ as') [] = no (λ e. cc)
range_discrete (a ∷ as') (b ∷ bs) = elim (element_discrete a b) [
  | yes p ↦ elim (range_discrete as' bs) [ yes q ↦ yes (cc) | no q ↦ no (λ e. q (cc)) ]
  | no p ↦ no (λ e. p (cc))
]

-- Two decisions of the same question
pub ite_agree :
    {P Q A : Type 0} (d : Dec P) (e : Dec Q) (a b : A) → (P → Q) → (Q → P) → ite d a b ≡ ite e a b
ite_agree (yes p) (yes q) a b f g = refl
ite_agree (yes p) (no nq) a b f g = absurd (nq (f p))
ite_agree (no np) (yes q) a b f g = absurd (np (g q))
ite_agree (no np) (no nq) a b f g = refl

-- What stands before the first separator, and what stands behind it.
split_at :
    (c : ℕ) (xs ys us vs : Text)
    → ¬ In c xs
    → ¬ In c us
    → xs ++ c ∷ ys ≡ us ++ c ∷ vs
    → (xs ≡ us) × (ys ≡ vs)
split_at c [] ys [] vs m n e = (refl, cc)
split_at c [] ys (u ∷ us) vs m n e = absurd (n (inl (cc)))
split_at c (x ∷ xs) ys [] vs m n e = absurd (m (inl (cc)))
split_at c (x ∷ xs) ys (u ∷ us) vs m n e =
    let (p, q) = split_at c xs ys us vs (λ i. m (inr i)) (λ i. n (inr i)) (cc) in (cc, q)

-- An address of a length
abbrev pub IsAddress : ℕ → Ip → Type 0
IsAddress len ip = (length ip ≡ len) × All (λ b. b < 256) ip

-- A start and an end of a length
abbrev pub IsRange : ℕ → Range → Type 0
IsRange len e =
    (a : Ip) × (b : Ip) × (e
      ≡ record { key = a; interval_end = false } ∷ record { key = b; interval_end = true } ∷ [])
    × IsAddress len a
    × IsAddress len b

-- What `net.IP` documents of `String`: a text without a dash, and different texts of different
-- addresses of one length.
pub record Printing (p : Platform) : Type 0 where
  pub no_dash : (ip : Ip) → All (λ b. b < 256) ip → ¬ In b'-' (p.ip_string ip)
  pub injective :
      (len : ℕ) (a b : Ip)
      → IsAddress len a
      → IsAddress len b
      → p.ip_string a ≡ p.ip_string b
      → a ≡ b

module _ (p : Platform) (printing : Printing p) (len : ℕ) where
  pub string-injective :
      (x y : Range)
      → IsRange len x
      → IsRange len y
      → set_element_to_string p x ≡ set_element_to_string p y
      → x ≡ y
  unfolding set_element_to_string
  string-injective x y (a, b, ex, ha, hb) (c, d, ey, hc, hd) e =
      let same : p.ip_string a ++ b'-' ∷ p.ip_string b ≡ p.ip_string c ++ b'-' ∷ p.ip_string d =
        rw (ex, ey) at e in
      let (starts, ends) =
        split_at b'-' _ _ _ _ (printing.no_dash a ha.1) (printing.no_dash c hc.1) same in
      let start = printing.injective len a c ha hc starts in
      let stop = printing.injective len b d hb hd ends in cc

  pub has-texts :
      (x : Range) (es : List Range)
      → IsRange len x
      → All (IsRange len) es
      → has range_discrete x es ≡ has text_discrete (set_element_to_string p x) (texts_of p es)
  unfolding has
  has-texts x [] h hs = refl
  has-texts x (e ∷ es) h (k, hs) =
      ite_agree (range_discrete x e)
        (text_discrete (set_element_to_string p x) (set_element_to_string p e)) true
        (has range_discrete x es) (ap (set_element_to_string p)) (string-injective x e h k)
      ∙ ap (ite (text_discrete (set_element_to_string p x) (set_element_to_string p e)) true)
          (has-texts x es h hs)

-- ===== src/Nfqlb/Offset/Cases.antt =====
-- The three results of a search, for proofs by cases.
use l_3_4_gateway_api_poc.Base.{ℕ, ◌≡◌, refl, ◌⊎◌, inl, inr}
use l_3_4_gateway_api_poc.Nfqlb.Offset.{Search, found, exhausted, unfinished}

pub Search-cases : (r : Search) → ((o : ℕ) × (r ≡ found o)) ⊎ ((r ≡ exhausted) ⊎ (r ≡ unfinished))
Search-cases (found o) = inl (o, refl)
Search-cases exhausted = inr (inl refl)
Search-cases unfinished = inr (inr refl)

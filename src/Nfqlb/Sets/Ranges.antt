-- ===== src/Nfqlb/Sets/Ranges.antt =====
-- What `updateSet` makes of the sets of both families, by the bytes of the ranges.
use l_3_4_gateway_api_poc.Base.{
  ℕ, ◌≡◌, refl, sym, ap, ◌∙◌, Bool, true, false, List, [], ◌∷◌, Text, text_discrete, lookup, delete,
  has, Distinct, All, All-append, All-In, insert-All, delete-All, map-Distinct, ite, Option-cases,
  inl, inr,
}
use l_3_4_gateway_api_poc.Nfqlb.Errors.{Error, set_delete_failed, set_add_failed}
use l_3_4_gateway_api_poc.Nfqlb.Platform.{
  Family, v4, v6, NftMessage, set_delete_elements, set_add_elements, Platform,
}
use l_3_4_gateway_api_poc.Nfqlb.Sets.{
  Range, set_element_to_string, new_elements_map, Batch, enqueue, remove_elements, add_elements,
  plan_update,
}
use l_3_4_gateway_api_poc.Nfqlb.Sets.Bytes.{
  range_discrete, ite_agree, IsRange, Printing, string-injective, has-texts,
}
use l_3_4_gateway_api_poc.Nfqlb.Sets.Update.{
  after_message, after_messages, TakesAll, plan_update-texts,
}

-- Whether a range is in the set of a family after a message, and after several: a message changes
-- the set of its family, and only the range whose bytes it has.
abbrev pub in_set_after_one : Family → Range → NftMessage → Bool → Bool
in_set_after_one v4 x (set_delete_elements v4 e) b = ite (range_discrete x e) false b
in_set_after_one v6 x (set_delete_elements v6 e) b = ite (range_discrete x e) false b
in_set_after_one v4 x (set_add_elements v4 e) b = ite (range_discrete x e) true b
in_set_after_one v6 x (set_add_elements v6 e) b = ite (range_discrete x e) true b
in_set_after_one v4 x (set_delete_elements v6 e) b = b
in_set_after_one v6 x (set_delete_elements v4 e) b = b
in_set_after_one v4 x (set_add_elements v6 e) b = b
in_set_after_one v6 x (set_add_elements v4 e) b = b

abbrev pub in_set_after : Family → Range → List NftMessage → Bool → Bool
in_set_after f x [] b = b
in_set_after f x (m ∷ ms) b = in_set_after f x ms (in_set_after_one f x m b)

module _ (p : Platform) (printing : Printing p) (len : ℕ) where
  -- A message for the family, about a range of the length.
  abbrev Concerns : Family → NftMessage → Type 0
  Concerns f (set_delete_elements g e) = (g ≡ f) × IsRange len e
  Concerns f (set_add_elements g e) = (g ≡ f) × IsRange len e

  in_set_after_one-text :
      (f : Family) (x : Range) (m : NftMessage) (b : Bool)
      → IsRange len x
      → Concerns f m
      → in_set_after_one f x m b ≡ after_message p (set_element_to_string p x) m b
  in_set_after_one-text v4 x (set_delete_elements v4 e) b h (g, k) =
      ite_agree _ _ false b (ap (set_element_to_string p)) (string-injective p printing len x e h k)
  in_set_after_one-text v6 x (set_delete_elements v6 e) b h (g, k) =
      ite_agree _ _ false b (ap (set_element_to_string p)) (string-injective p printing len x e h k)
  in_set_after_one-text v4 x (set_add_elements v4 e) b h (g, k) =
      ite_agree _ _ true b (ap (set_element_to_string p)) (string-injective p printing len x e h k)
  in_set_after_one-text v6 x (set_add_elements v6 e) b h (g, k) =
      ite_agree _ _ true b (ap (set_element_to_string p)) (string-injective p printing len x e h k)
  in_set_after_one-text v4 x (set_delete_elements v6 e) b h (g, k) = absurd (cc)
  in_set_after_one-text v6 x (set_delete_elements v4 e) b h (g, k) = absurd (cc)
  in_set_after_one-text v4 x (set_add_elements v6 e) b h (g, k) = absurd (cc)
  in_set_after_one-text v6 x (set_add_elements v4 e) b h (g, k) = absurd (cc)

  in_set_after-texts :
      (f : Family) (x : Range) (ms : List NftMessage) (b : Bool)
      → IsRange len x
      → All (Concerns f) ms
      → in_set_after f x ms b ≡ after_messages p (set_element_to_string p x) ms b
  in_set_after-texts f x [] b h hs = refl
  in_set_after-texts f x (m ∷ ms) b h (k, hs) =
      ap (in_set_after f x ms) (in_set_after_one-text f x m b h k)
      ∙ in_set_after-texts f x ms (after_message p (set_element_to_string p x) m b) h hs

  abbrev Holds : Text × Range → Type 0
  Holds e = IsRange len e.1

  new_elements_map-Holds :
      (es : List Range) (m : List (Text × Range))
      → All (IsRange len) es
      → All Holds m
      → All Holds (new_elements_map p es m)
  unfolding new_elements_map
  new_elements_map-Holds [] m hs k = k
  new_elements_map-Holds (e ∷ es) m (h, hs) k =
      new_elements_map-Holds es _ hs
        (insert-All text_discrete Holds (set_element_to_string p e) e m h k)

  enqueue-Concerns :
      (f : Family) (m : NftMessage) (e : Error) (b : Batch p)
      → TakesAll p
      → Concerns f m
      → All (Concerns f) b.messages
      → All (Concerns f) (enqueue p m e b).messages
  unfolding enqueue
  enqueue-Concerns f m e b t h k =
      rw (t m, enqueue) (All-append (Concerns f) b.messages (m ∷ []) k (h, tt))

  remove_elements-Concerns :
      (f : Family) (es : List Range) (new : List (Text × Range)) (b : Batch p)
      → TakesAll p
      → All (IsRange len) es
      → All Holds new
      → All (Concerns f) b.messages
      → All Holds (remove_elements p f es new b).0
        × All (Concerns f) (remove_elements p f es new b).1.messages
  unfolding remove_elements
  remove_elements-Concerns f [] new b t hs n k = (n, k)
  remove_elements-Concerns f (e ∷ es) new b t (h, hs) n k =
      let key = set_element_to_string p e in
      elim (Option-cases (lookup text_discrete key new)) [
        | inr (v, there) ↦
            rw (there, remove_elements)
              (remove_elements-Concerns f es (delete text_discrete key new) b t hs
                (delete-All text_discrete Holds key new n) k)
        | inl gone ↦
            rw (gone, remove_elements)
              (remove_elements-Concerns f es new
                (enqueue p (set_delete_elements f e) set_delete_failed b) t hs n
                (enqueue-Concerns f (set_delete_elements f e) set_delete_failed b t (refl, h) k))
      ]

  add_elements-Concerns :
      (f : Family) (new : List (Text × Range)) (b : Batch p)
      → TakesAll p
      → All Holds new
      → All (Concerns f) b.messages
      → All (Concerns f) (add_elements p f new b).messages
  unfolding add_elements
  add_elements-Concerns f [] b t n k = k
  add_elements-Concerns f ((key, e) ∷ new) b t (h, n) k =
      add_elements-Concerns f new (enqueue p (set_add_elements f e) set_add_failed b) t n
        (enqueue-Concerns f (set_add_elements f e) set_add_failed b t (refl, h) k)

  plan_update-Concerns :
      (f : Family) (current new : List Range)
      → TakesAll p
      → All (IsRange len) current
      → All (IsRange len) new
      → All (Concerns f) (plan_update p f current new).messages
  unfolding plan_update
  plan_update-Concerns f current new t hs ns =
      let wanted = new_elements_map p new [] in
      let b : Batch p = record { messages = []; errors = [] } in
      let (left, sent) =
        remove_elements-Concerns f current wanted b t hs (new_elements_map-Holds new [] ns tt) tt in
      let rest = remove_elements p f current wanted b in
      add_elements-Concerns f rest.0 rest.1 t left sent

  -- Where nftables takes every message, the ranges are of addresses of one length, the current ones
  -- are different and net.IP prints addresses as documented, the messages of updateSet turn the set
  -- of the family from the current ranges into the new ones: a range is in it afterwards exactly if
  -- it is a new one, by its bytes.
  pub plan_update-ranges :
      (f : Family) (current new : List Range) (x : Range)
      → TakesAll p
      → All (IsRange len) current
      → All (IsRange len) new
      → Distinct current
      → IsRange len x
      → in_set_after f x (plan_update p f current new).messages (has range_discrete x current)
        ≡ has range_discrete x new
  plan_update-ranges f current new x t hs ns d h =
      let text_of = set_element_to_string p x in
      let sent = (plan_update p f current new).messages in
      let apart = map-Distinct (set_element_to_string p) current d (λ a b i j.
        string-injective p printing len a b (All-In (IsRange len) a current hs i)
          (All-In (IsRange len) b current hs j)) in
      in_set_after-texts f x sent (has range_discrete x current) h
        (plan_update-Concerns f current new t hs ns)
      ∙ ap (after_messages p text_of sent) (has-texts p printing len x current h hs)
      ∙ plan_update-texts p f current new text_of t apart
      ∙ sym (has-texts p printing len x new h ns)

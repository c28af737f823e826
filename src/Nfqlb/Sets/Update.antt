-- ===== src/Nfqlb/Sets/Update.antt =====
-- What the messages of `updateSet` make of a set of ranges that are told apart by their texts.
use l_3_4_gateway_api_poc.Base.{
  ◌≡◌, refl, sym, ◌∙◌, Bool, true, false, not, ◌&&◌, ◌||◌, List, [], ◌∷◌, ◌++◌, map, Text,
  text_discrete, lookup, insert, delete, has, not_In-has, ap, exists_absent, Distinct, All,
  insert-All, delete-All, exists, exists-insert, exists-delete, exists_some, exists-cons,
  exists_none, arith, ite, if_pos, if_neg, if◌then◌else◌, Option-cases, inl, inr,
}
use l_3_4_gateway_api_poc.Nfqlb.Errors.{Error, set_delete_failed, set_add_failed}
use l_3_4_gateway_api_poc.Nfqlb.Platform.{
  Family, NftMessage, set_delete_elements, set_add_elements, Platform,
}
use l_3_4_gateway_api_poc.Nfqlb.Sets.{
  Range, set_element_to_string, new_elements_map, Batch, enqueue, remove_elements, add_elements,
  plan_update,
}

module _ (p : Platform) where
  open p use {queue_message}

  -- Whether a range of a text is in the set after a message, and after several.
  abbrev pub after_message : Text → NftMessage → Bool → Bool
  after_message x (set_delete_elements f e) b =
      ite (text_discrete x (set_element_to_string p e)) false b
  after_message x (set_add_elements f e) b =
      ite (text_discrete x (set_element_to_string p e)) true b

  abbrev pub after_messages : Text → List NftMessage → Bool → Bool
  after_messages x [] b = b
  after_messages x (m ∷ ms) b = after_messages x ms (after_message x m b)

  abbrev pub texts_of : List Range → List Text
  texts_of = map (set_element_to_string p)

  after-append :
      (x : Text) (ms : List NftMessage) (m : NftMessage) (b : Bool)
      → after_messages x (ms ++ m ∷ []) b ≡ after_message x m (after_messages x ms b)
  after-append x [] m b = refl
  after-append x (n ∷ ms) m b = after-append x ms m (after_message x n b)

  -- Every message is taken.
  abbrev pub TakesAll : Type 0
  TakesAll = (m : NftMessage) → queue_message m ≡ true

  enqueue-messages :
      (m : NftMessage) (e : Error) (b : Batch p)
      → TakesAll
      → (enqueue p m e b).messages ≡ b.messages ++ m ∷ []
  unfolding enqueue
  enqueue-messages m e b h = rw (h m, enqueue) refl

  abbrev IsKeyed : Text × Range → Type 0
  IsKeyed e = e.0 ≡ set_element_to_string p e.1

  new_elements_map-IsKeyed :
      (es : List Range) (m : List (Text × Range))
      → All IsKeyed m
      → All IsKeyed (new_elements_map p es m)
  unfolding new_elements_map
  new_elements_map-IsKeyed [] m h = h
  new_elements_map-IsKeyed (e ∷ es) m h =
      new_elements_map-IsKeyed es _
        (insert-All text_discrete IsKeyed (set_element_to_string p e) e m refl h)

  exists-new_elements_map :
      (es : List Range) (m : List (Text × Range)) (x : Text)
      → exists x (new_elements_map p es m) ≡ has text_discrete x (texts_of es) || exists x m
  unfolding new_elements_map has
  exists-new_elements_map [] m x = refl
  exists-new_elements_map (e ∷ es) m x =
      let k = set_element_to_string p e in
      let ih = exists-new_elements_map es (insert text_discrete k e m) x in
      let put = exists-insert x k e m in
      elim (text_discrete x k) [ yes q ↦ ground (arith, ih, put) | no nq ↦ ground (arith, ih, put) ]

  -- What is left to add, and what the messages so far make of the set.
  abbrev Removed :
      Text
      → Bool
      → List Range
      → List (Text × Range)
      → Batch p
      → List (Text × Range) × Batch p
      → Type 0
  Removed x s es new b r =
      All IsKeyed r.0
      × (exists x r.0 ≡ (exists x new && not (has text_discrete x (texts_of es))))
      × (after_messages x r.1.messages s ≡ (
          if has text_discrete x (texts_of es) && not (exists x new)
          then false
          else after_messages x b.messages s))

  remove_elements-Removed :
      (f : Family) (es : List Range) (new : List (Text × Range)) (b : Batch p) (x : Text) (s : Bool)
      → TakesAll
      → Distinct (texts_of es)
      → All IsKeyed new
      → Removed x s es new b (remove_elements p f es new b)
  unfolding remove_elements has
  remove_elements-Removed f [] new b x s t d k = (k, ground arith, refl)
  remove_elements-Removed f (e ∷ es) new b x s t (alone, d) k =
      let key = set_element_to_string p e in
      let once = not_In-has text_discrete key (texts_of es) alone in
      elim (Option-cases (lookup text_discrete key new)) [
        | inr (v, there) ↦
            let (keyed, left, after) =
              remove_elements-Removed f es (delete text_discrete key new) b x s t d
                (delete-All text_discrete IsKeyed key new k) in
            let cut = exists-delete x key new in
            let is_new = exists_some key v new there in
            rw (there, remove_elements)
              (elim (text_discrete x key) [
                | yes q ↦
                    let new_x : exists x new ≡ true = rw q is_new in
                    let once_x : has text_discrete x (texts_of es) ≡ false = rw q once in
                    (
                      keyed,
                      ground (arith, left, cut, new_x, once_x),
                      ground (arith, after, cut, new_x, once_x),
                    )
                | no nq ↦ (keyed, ground (arith, left, cut), ground (arith, after, cut))
              ])
        | inl gone ↦
            let b1 = enqueue p (set_delete_elements f e) set_delete_failed b in
            let (keyed, left, after) = remove_elements-Removed f es new b1 x s t d k in
            let sent : after_messages x b1.messages s
                ≡ ite (text_discrete x key) false (after_messages x b.messages s) =
              ap (λ ms. after_messages x ms s)
                (enqueue-messages (set_delete_elements f e) set_delete_failed b t)
              ∙ after-append x b.messages (set_delete_elements f e) s in
            let is_old = exists_absent key new gone in
            rw (gone, remove_elements)
              (elim (text_discrete x key) [
                | yes q ↦
                    let old_x : exists x new ≡ false = rw q is_old in
                    let once_x : has text_discrete x (texts_of es) ≡ false = rw q once in
                    (
                      keyed,
                      ground (arith, left, old_x, once_x),
                      ground (arith, after, sent, old_x, once_x),
                    )
                | no nq ↦ (keyed, ground (arith, left), ground (arith, after, sent))
              ])
      ]

  add_elements-after :
      (f : Family) (new : List (Text × Range)) (b : Batch p) (x : Text) (s : Bool)
      → TakesAll
      → All IsKeyed new
      → after_messages x (add_elements p f new b).messages s
        ≡ (exists x new || after_messages x b.messages s)
  unfolding add_elements
  add_elements-after f [] b x s t k = ground (arith, exists_none Range x)
  add_elements-after f ((key, e) ∷ new) b x s t (k, ks) =
      let b1 = enqueue p (set_add_elements f e) set_add_failed b in
      let ih = add_elements-after f new b1 x s t ks in
      let sent : after_messages x b1.messages s
          ≡ ite (text_discrete x (set_element_to_string p e)) true (after_messages x b.messages s) =
        ap (λ ms. after_messages x ms s)
          (enqueue-messages (set_add_elements f e) set_add_failed b t)
        ∙ after-append x b.messages (set_add_elements f e) s in
      let cons = exists-cons x key e new in
      elim (text_discrete x key) [
        | yes q ↦
            let same =
              if_pos (text_discrete x (set_element_to_string p e)) (q ∙ k) true
                (after_messages x b.messages s) in
            ground (arith, ih, sent, cons, same)
        | no nq ↦
            let other =
              if_neg (text_discrete x (set_element_to_string p e)) (λ r. nq (r ∙ sym k)) true
                (after_messages x b.messages s) in
            ground (arith, ih, sent, cons, other)
      ]

  -- The same by the texts that updateSet compares.
  pub plan_update-texts :
      (f : Family) (current new : List Range) (x : Text)
      → TakesAll
      → Distinct (texts_of current)
      → after_messages x
          (plan_update p f current new).messages
          (has text_discrete x (texts_of current))
        ≡ has text_discrete x (texts_of new)
  unfolding plan_update
  plan_update-texts f current new x t d =
      let s = has text_discrete x (texts_of current) in
      let wanted = new_elements_map p new [] in
      let b : Batch p = record { messages = []; errors = [] } in
      let (keyed, left, after) =
        remove_elements-Removed f current wanted b x s t d (new_elements_map-IsKeyed new [] tt) in
      let rest = remove_elements p f current wanted b in
      let all = add_elements-after f rest.0 rest.1 x s t keyed in
      let names = exists-new_elements_map new [] x in
      ground (arith, all, after, left, names, exists_none Range x)

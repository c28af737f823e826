-- ===== src/Base/Exists.antt =====
-- Whether a map has a key.
use mathlib.Core.Path.{◌≡◌, refl}
use mathlib.Core.Logic.{ite, inl, inr}
use mathlib.Core.Bool.{Bool, true, false}
use mathlib.Core.Option.{none, some}
use mathlib.Core.List.{List, [], ◌∷◌}
use native.Mathlib.Omega.{arith}
use l_3_4_gateway_api_poc.Base.Texts.{Text, text_discrete}
use l_3_4_gateway_api_poc.Base.Lists.{In}
use l_3_4_gateway_api_poc.Base.Keys.{keys}
use l_3_4_gateway_api_poc.Base.Maps.{lookup, insert, delete, lookup-insert, lookup-delete}

-- `_, exists := m[k]`
unfoldable pub exists : {V : Type 0} → Text → List (Text × V) → Bool
exists k m = elim (lookup text_discrete k m) [ none ↦ false | some v ↦ true ]

pub exists_some :
    {V : Type 0} (k : Text) (v : V) (m : List (Text × V))
    → lookup text_discrete k m ≡ some v
    → exists k m ≡ true
unfolding exists
exists_some k v m e = rw (e, exists) refl

pub exists_absent :
    {V : Type 0} (k : Text) (m : List (Text × V))
    → lookup text_discrete k m ≡ none
    → exists k m ≡ false
unfolding exists
exists_absent k m e = rw (e, exists) refl

pub exists-cons :
    {V : Type 0} (x k : Text) (v : V) (m : List (Text × V))
    → exists x ((k, v) ∷ m) ≡ ite (text_discrete x k) true (exists x m)
unfolding exists lookup
exists-cons x k v m = ground arith

pub exists_none : (V : Type 0) (x : Text) → exists {V = V} x [] ≡ false
unfolding exists lookup
exists_none V x = refl

pub exists-insert :
    {V : Type 0} (x k : Text) (v : V) (m : List (Text × V))
    → exists x (insert text_discrete k v m) ≡ ite (text_discrete x k) true (exists x m)
unfolding exists
exists-insert x k v m = ground (arith, lookup-insert text_discrete k x v m)

pub exists-delete :
    {V : Type 0} (x k : Text) (m : List (Text × V))
    → exists x (delete text_discrete k m) ≡ ite (text_discrete x k) false (exists x m)
unfolding exists
exists-delete x k m = ground (arith, lookup-delete text_discrete k x m)

pub exists-In : {V : Type 0} (k : Text) (m : List (Text × V)) → exists k m ≡ true → In k (keys m)
unfolding exists lookup
exists-In k [] h = absurd (cc)
exists-In k ((j, v) ∷ m) h = elim (text_discrete k j) [
  | yes e ↦ inl e
  | no ne ↦ inr (exists-In k m (ground arith))
]

-- ===== src/JsMap.antt =====
-- JavaScript's `Map` and `Set` with text keys: association lists in insertion order. `set` on a
-- present key keeps its place; `delete` on an absent key changes nothing.
pub mod Laws
use aiself_healer.Common.{
  String, Bool, true, false, Option, none, some, List, [], ◌∷◌, ◌==◌, if◌then◌else◌, map, any,
}

abbrev pub JsMap {ℓ} : Type ℓ → Type ℓ
JsMap V = List (String × V)

module _ {ℓ} {V : Type ℓ} where
  unfoldable pub get : String → JsMap V → Option V
  get k [] = none
  get k ((j, v) ∷ m) = if j == k then some v else get k m

  unfoldable pub set : String → V → JsMap V → JsMap V
  set k v [] = (k, v) ∷ []
  set k v ((j, w) ∷ m) = if j == k then (j, v) ∷ m else (j, w) ∷ set k v m

  unfoldable pub delete : String → JsMap V → JsMap V
  delete k [] = []
  delete k ((j, v) ∷ m) = if j == k then delete k m else (j, v) ∷ delete k m

  unfoldable pub has : String → JsMap V → Bool
  unfolding get
  has k m = elim (get k m) [ none ↦ false | some _ ↦ true ]

  -- `[...map.values()]`
  abbrev pub values : JsMap V → List V
  values m = map (λ e. e.1) m

-- A `Set` of texts.
unfoldable pub set_has : String → List String → Bool
set_has k [] = false
set_has k (j ∷ s) = if j == k then true else set_has k s

unfoldable pub set_add : String → List String → List String
set_add k [] = k ∷ []
set_add k (j ∷ s) = if j == k then j ∷ s else j ∷ set_add k s

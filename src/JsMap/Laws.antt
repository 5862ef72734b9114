-- ===== src/JsMap/Laws.antt =====
-- What can be read after a write to a `Map` or a `Set`.
use aiself_healer.Common.{
  keep, Option, String, none, some, List, [], ◌∷◌, ◌==◌, if◌then◌else◌, ◌≡◌, refl, arith, eq_iff,
  eq_refl, find, Bool, false, is_some, ◌||◌,
}
use aiself_healer.JsMap.{JsMap, values, has, get, set, delete, set_has, set_add}

module _ {ℓ} {V : Type ℓ} where
  pub get-set :
      (k j : String) (v : V) (m : JsMap V)
      → get j (set k v m) ≡ (if k == j then some v else get j m)
  unfolding get set
  get-set k j v [] = refl
  get-set k j v ((i, w) ∷ m) = ground (arith, eq_iff k j, eq_iff i k, eq_iff i j, get-set k j v m)

  pub get-delete :
      (k j : String) (m : JsMap V) → get j (delete k m) ≡ (if k == j then none else get j m)
  unfolding get delete
  get-delete k j [] = ground arith
  get-delete k j ((i, w) ∷ m) = ground (arith, eq_iff k j, eq_iff i k, eq_iff i j, get-delete k j m)

pub set_has-set_add :
    (k j : String) (s : List String) → set_has j (set_add k s) ≡ (k == j || set_has j s)
unfolding set_has set_add
set_has-set_add k j [] = ground arith
set_has-set_add k j (i ∷ s) =
    ground (arith, eq_iff k j, eq_iff i k, eq_iff i j, set_has-set_add k j s)

module _ {ℓ} {V : Type ℓ} where
  -- A write at a key that was just written is the one that counts.
  pub set-set : (k : String) (v w : V) (m : JsMap V) → set k w (set k v m) ≡ set k w m
  unfolding set
  set-set k v w [] = ground (arith, eq_refl k)
  set-set k v w ((j, u) ∷ m) = ground (arith, set-set k v w m)

  -- A search that fails still fails after the write of a value that does not fit.
  pub find-values-set-none :
      (p : V → Bool) (k : String) (v : V) (m : JsMap V)
      → find p (values m) ≡ none
      → p v ≡ false
      → find p (values (set k v m)) ≡ none
  unfolding set
  find-values-set-none p k v [] h f = ground arith
  find-values-set-none p k v ((j, u) ∷ m) h f = ground (arith, find-values-set-none p k v m)

  pub has-get : (k : String) (m : JsMap V) → has k m ≡ is_some (get k m)
  unfolding has
  has-get k m = ground arith

  -- Whether the value of a key, if there is one, passes a test.
  abbrev pub fits : (V → Bool) → Option V → Bool
  fits p none = false
  fits p (some v) = p v

  -- A write that replaces nothing that passes the test by something that does not leaves the
  -- values that pass as they are.
  pub keep-values-set_hidden :
      (p : V → Bool) (k : String) (v : V) (m : JsMap V)
      → fits p (get k m) ≡ false
      → p v ≡ false
      → keep p (values (set k v m)) ≡ keep p (values m)
  unfolding get set
  keep-values-set_hidden p k v [] h f = ground arith
  keep-values-set_hidden p k v ((j, u) ∷ m) h f =
      ground (arith, keep-values-set_hidden p k v m, eq_iff j k)

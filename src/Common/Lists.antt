-- ===== src/Common/Lists.antt =====
-- Lists measured by native numbers, and predicates on every element.
use Prim.Native.Nat.{ℕ, zero, suc, ◌+◌, ◌≤◌}
use mathlib.Core.Path.{◌≡◌, refl, sym, ap, ◌∙◌}
use mathlib.Core.Bool.{Bool, true, false, ◌||◌, ◌&&◌, false≢true}
use mathlib.Core.List.{List, [], ◌∷◌, ◌++◌, Memᴰ}
use mathlib.Core.Logic.{◌⊎◌, ◌≢◌, inl, inr}
use mathlib.Core.Option.{Option, none, some}
use native.Mathlib.Omega.{arith}
use aiself_healer.Common.Tests.{Bool-cases, if◌then◌else◌}

module _ {ℓ} {A : Type ℓ} where
  abbrev pub length : List A → ℕ
  length [] = 0
  length (x ∷ xs) = suc (length xs)

  -- `Array.prototype.filter`
  abbrev pub keep : (A → Bool) → List A → List A
  keep p [] = []
  keep p (x ∷ xs) = if p x then x ∷ keep p xs else keep p xs

  -- `Array.prototype.some`
  abbrev pub any : (A → Bool) → List A → Bool
  any p [] = false
  any p (x ∷ xs) = p x || any p xs

  -- `Array.prototype.every`
  abbrev pub every : (A → Bool) → List A → Bool
  every p [] = true
  every p (x ∷ xs) = p x && every p xs

  -- `Array.prototype.find`
  abbrev pub find : (A → Bool) → List A → Option A
  find p [] = none
  find p (x ∷ xs) = if p x then some x else find p xs

  -- `slice(0, n)`
  abbrev pub take : ℕ → List A → List A
  take zero elements = []
  take (suc n) [] = []
  take (suc n) (first ∷ others) = first ∷ take n others

  pub length-append : (xs ys : List A) → length (xs ++ ys) ≡ length xs + length ys
  length-append [] ys = omega arith
  length-append (x ∷ xs) ys = omega (arith, length-append xs ys)

  -- the first elements are at most as many as were asked for
  pub length-take-le : (n : ℕ) (elements : List A) → length (take n elements) ≤ n
  length-take-le zero elements = omega arith
  length-take-le (suc n) [] = omega arith
  length-take-le (suc n) (first ∷ others) =
      let rest = length-take-le n others in omega (arith, rest)

  -- what is cut off twice
  pub take-take-suc : (n : ℕ) (xs : List A) → take n (take (suc n) xs) ≡ take n xs
  take-take-suc n [] = refl
  take-take-suc zero (x ∷ xs) = refl
  take-take-suc (suc n) (x ∷ xs) = ap (◌∷◌ x) (take-take-suc n xs)

  pub take-cons-take : (n : ℕ) (x : A) (xs : List A) → take n (x ∷ take n xs) ≡ take n (x ∷ xs)
  take-cons-take zero x xs = refl
  take-cons-take (suc n) x xs = ap (◌∷◌ x) (take-take-suc n xs)

  pub take-of_le : (n : ℕ) (xs : List A) → length xs ≤ n → take n xs ≡ xs
  take-of_le zero [] h = refl
  take-of_le zero (x ∷ xs) h = absurd (omega (arith, h))
  take-of_le (suc n) [] h = refl
  take-of_le (suc n) (x ∷ xs) h = ap (◌∷◌ x) (take-of_le n xs (omega (arith, h)))

  pub every-mem :
      (p : A → Bool) (xs : List A) → every p xs ≡ true → {x : A} → Memᴰ x xs → p x ≡ true
  every-mem p [] h m = elim m [ ]
  every-mem p (y ∷ ys) h (Memᴰ.head e) = rw e (ground arith)
  every-mem p (y ∷ ys) h (Memᴰ.tail m) = every-mem p ys (ground arith) m

  pub find-holds : (p : A → Bool) (xs : List A) (x : A) → find p xs ≡ some x → p x ≡ true
  find-holds p [] x h = ground arith
  find-holds p (y ∷ ys) x h = ground (arith, find-holds p ys x)

module _ {ℓ κ} {A : Type ℓ} (P : A → Type κ) where
  abbrev pub All : List A → Type κ
  All [] = Unit
  All (x ∷ xs) = P x × All xs

  pub All-append : (xs ys : List A) → All xs → All ys → All (xs ++ ys)
  All-append [] ys hx hy = hy
  All-append (x ∷ xs) ys hx hy = (hx.0, All-append xs ys hx.1 hy)

pub All-map {ℓ κ μ} :
    {A : Type ℓ} {P : A → Type κ} {Q : A → Type μ} (f : (x : A) → P x → Q x) (xs : List A)
    → All P xs
    → All Q xs
All-map f [] h = tt
All-map f (x ∷ xs) h = (f x h.0, All-map f xs h.1)

module _ {ℓ} {A : Type ℓ} (p : A → Bool) where
  pub any-mem : (xs : List A) → any p xs ≡ true → (x : A) × Memᴰ x xs × (p x ≡ true)
  any-mem [] h = absurd (false≢true h)
  any-mem (x ∷ xs) h = elim (Bool-cases (p x)) [
    | inl here ↦ (x, Memᴰ.head refl, here)
    | inr other ↦ let (y, m, e) = any-mem xs (ground arith) in (y, Memᴰ.tail m, e)
  ]

  pub any_of_mem : (x : A) (xs : List A) → Memᴰ x xs → p x ≡ true → any p xs ≡ true
  any_of_mem x [] m h = elim m [ ]
  any_of_mem x (y ∷ ys) (Memᴰ.head e) h = rw (← e) (rw h)
  any_of_mem x (y ∷ ys) (Memᴰ.tail m) h = ground (arith, any_of_mem x ys m h)

  pub any-false : (x : A) (xs : List A) → Memᴰ x xs → any p xs ≡ false → p x ≡ false
  any-false x xs m h = elim (Bool-cases (p x)) [
    | inl e ↦ absurd (false≢true (sym h ∙ any_of_mem x xs m e))
    | inr e ↦ e
  ]

module _ {ℓ} {A : Type ℓ} where
  pub mem-append_left : {p : A} (xs ys : List A) → Memᴰ p xs → Memᴰ p (xs ++ ys)
  mem-append_left (x ∷ xs) ys (Memᴰ.head e) = Memᴰ.head e
  mem-append_left (x ∷ xs) ys (Memᴰ.tail m) = Memᴰ.tail (mem-append_left xs ys m)
  mem-append_left [] ys m = elim m [ ]

  pub mem-append_right : {p : A} (xs ys : List A) → Memᴰ p ys → Memᴰ p (xs ++ ys)
  mem-append_right [] ys m = m
  mem-append_right (x ∷ xs) ys m = Memᴰ.tail (mem-append_right xs ys m)

  pub mem-append_cases : {p : A} (xs ys : List A) → Memᴰ p (xs ++ ys) → Memᴰ p xs ⊎ Memᴰ p ys
  mem-append_cases [] ys m = inr m
  mem-append_cases (x ∷ xs) ys (Memᴰ.head e) = inl (Memᴰ.head e)
  mem-append_cases (x ∷ xs) ys (Memᴰ.tail m) = elim (mem-append_cases xs ys m) [
    | inl here ↦ inl (Memᴰ.tail here)
    | inr there ↦ inr there
  ]

  pub mem-cons_cases : {p q : A} {xs : List A} → Memᴰ p (q ∷ xs) → (p ≡ q) ⊎ Memᴰ p xs
  mem-cons_cases (Memᴰ.head e) = inl e
  mem-cons_cases (Memᴰ.tail m) = inr m

  -- No element stands twice.
  abbrev pub IsDistinct : List A → Type ℓ
  IsDistinct [] = Unit
  IsDistinct (x ∷ xs) = All (λ y. x ≢ y) xs × IsDistinct xs

  pub IsDistinct-append_one :
      (xs : List A) (y : A) → IsDistinct xs → ¬ Memᴰ y xs → IsDistinct (xs ++ y ∷ [])
  IsDistinct-append_one [] y d fresh = (tt, tt)
  IsDistinct-append_one (x ∷ xs) y d fresh = (
    All-append (λ z. x ≢ z) xs (y ∷ []) d.0 (λ e. fresh (Memᴰ.head (sym e)), tt),
    IsDistinct-append_one xs y d.1 (λ m. fresh (Memᴰ.tail m)),
  )

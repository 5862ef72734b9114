-- ===== src/Frontend/Stale.antt =====
-- The health events that the store of frontend/src/hooks/useRealtime.js keeps, in the merge of
-- frontend/src/App.jsx: which of them a service shows while more arrive.
use mathlib.Core.Path.{subst}
use aiself_healer.Common.{
  ℕ, zero, suc, ◌<◌, String, Option, none, some, List, [], ◌∷◌, ◌++◌, Memᴰ, ◌≡◌, ◌∙◌, refl, ap,
  arith, take, length, map, eq_refl,
}
use aiself_healer.Frontend.Realtime.{
  Slice, health, Message, connect, disconnect, event, after, events_of, slice_of, shown, after-take,
}
use aiself_healer.Frontend.Snapshot.{
  HealthEvent, Score, Service, merge, with_score, oldest, merge-oldest,
}

mem-map : {A B : Type 0} (f : A → B) (x : A) (xs : List A) → Memᴰ x xs → Memᴰ (f x) (map f xs)
mem-map f x [] m = elim m [ ]
mem-map f x (y ∷ ys) (Memᴰ.head e) = Memᴰ.head (ap f e)
mem-map f x (y ∷ ys) (Memᴰ.tail m) = Memᴰ.tail (mem-map f x ys m)

module _ {V : Type 0} where
  events_of-append :
      (key : Slice) (xs ys : List (Message (HealthEvent V)))
      → events_of (HealthEvent V) key (xs ++ ys)
        ≡ events_of (HealthEvent V) key xs ++ events_of (HealthEvent V) key ys
  events_of-append key [] ys = refl
  events_of-append key (connect ∷ xs) ys = events_of-append key xs ys
  events_of-append key (disconnect ∷ xs) ys = events_of-append key xs ys
  events_of-append key (event name e ∷ xs) ys = ground (arith, events_of-append key xs ys)

  oldest-take-none :
      (id : String) (n : ℕ) (es : List (HealthEvent V))
      → oldest V id es ≡ none
      → oldest V id (take n es) ≡ none
  oldest-take-none id zero es h = refl
  oldest-take-none id (suc n) [] h = refl
  oldest-take-none id (suc n) (e ∷ es) h =
      let older : oldest V id es ≡ none = ground (arith, h) in
      let none_kept = oldest-take-none id n es older in ground (arith, h, older, none_kept)

  oldest-take_first :
      (id : String) (n : ℕ) (later earlier : List (HealthEvent V)) (e : HealthEvent V)
      → e.service_id ≡ some id
      → oldest V id earlier ≡ none
      → length later < n
      → oldest V id (take n (later ++ e ∷ earlier)) ≡ some e.score
  oldest-take_first id zero later earlier e named first few = absurd (omega arith)
  oldest-take_first id (suc n) [] earlier e named first few =
      let none_kept = oldest-take-none id n earlier first in
      ground (arith, named, none_kept, eq_refl id)
  oldest-take_first id (suc n) (l ∷ later) earlier e named first few =
      ground (arith, oldest-take_first id n later earlier e named first (omega arith))

  merge-shows :
      (es : List (HealthEvent V)) (services : List (Service V)) (s : Service V)
      (o : Option (Option (Score V)))
      → Memᴰ s services
      → oldest V s.id es ≡ o
      → Memᴰ (with_score V o s) (merge V es services)
  merge-shows es services s o m e =
      let f : Service V → Service V = λ s. with_score V (oldest V s.id es) s in
      rw (merge-oldest V es services)
        (subst (λ o. Memᴰ (with_score V o s) (map f services)) e (mem-map f s services m))

  -- A service shows the first health event of it that the dashboard received for as long as less
  -- than a hundred health events of any service came after it, whatever those say.
  pub merge-after :
      (later earlier : List (Message (HealthEvent V))) (e : HealthEvent V) (s : Service V)
      (services : List (Service V))
      → Memᴰ s services
      → e.service_id ≡ some s.id
      → oldest V s.id (events_of (HealthEvent V) health earlier) ≡ none
      → length (events_of (HealthEvent V) health later) < shown
      → Memᴰ (with_score V (some e.score) s) (
          merge V
            ((after (HealthEvent V) (later ++ event "service.health" e ∷ earlier)).slices health)
            services)
  unfolding slice_of
  merge-after later earlier e s services m named first few =
      let all = later ++ event "service.health" e ∷ earlier in
      let kept : (after (HealthEvent V) all).slices health
          ≡ take shown (
              events_of (HealthEvent V) health later
              ++ e ∷ events_of (HealthEvent V) health earlier) =
        (after-take (HealthEvent V) all).0 health
        ∙ ap (take shown) (events_of-append health later (event "service.health" e ∷ earlier)) in
      let shows =
        oldest-take_first s.id shown (events_of (HealthEvent V) health later)
          (events_of (HealthEvent V) health earlier) e named first few in
      rw kept (merge-shows _ services s (some e.score) m shows)

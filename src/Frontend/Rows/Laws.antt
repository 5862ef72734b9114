-- ===== src/Frontend/Rows/Laws.antt =====
-- What the rows of the tables hold.
use aiself_healer.Common.{
  ℕ, zero, suc, ◌≤◌, String, Option, none, some, List, [], ◌∷◌, ◌++◌, map, take, length,
  length-take-le, ◌≡◌, ◌∙◌, refl, ap, sym, arith, All, ◌==◌, if◌then◌else◌,
}
use aiself_healer.JsMap
use aiself_healer.JsMap.Laws.{get-set}
use aiself_healer.Frontend.Shape.{Field, Row, Event}
use aiself_healer.Frontend.Rows.{
  spread, row_or_empty, flatten, events_or_empty, most, feed_rows, scaling_rows,
}

abbrev pub instead : Option Field → Option Field → Option Field
instead none old = old
instead (some field) old = some field

-- the last value of a name in a source
abbrev pub last_of : String → Row → Option Field
last_of name [] = none
last_of name ((key, value) ∷ source) =
    instead (last_of name source) (if key == name then some value else none)

get-spread :
    (name : String) (target source : Row)
    → JsMap.get name (spread target source) ≡ instead (last_of name source) (JsMap.get name target)
unfolding spread
get-spread name target [] = refl
get-spread name target ((key, value) ∷ source) =
    ground
      (arith, get-spread name (JsMap.set key value target) source, get-set key name value target)

-- A field of a row is that of the event's payload, or of the event where the payload has none.
pub get-flatten :
    (name : String) (event : Event)
    → JsMap.get name (flatten event)
      ≡ instead (last_of name (row_or_empty event.payload)) (JsMap.get name event.fields)
get-flatten name event = get-spread name event.fields (row_or_empty event.payload)

map-take : (f : Event → Row) (n : ℕ) (xs : List Event) → map f (take n xs) ≡ take n (map f xs)
map-take f zero xs = refl
map-take f (suc n) [] = refl
map-take f (suc n) (x ∷ xs) = ap (◌∷◌ (f x)) (map-take f n xs)

map-append-plain :
    (live held : List Event)
    → All (λ event. event.payload ≡ none) held
    → map flatten (live ++ held) ≡ map flatten live ++ map (λ event. event.fields) held
unfolding spread
map-append-plain [] [] h = refl
map-append-plain [] (e ∷ held) h = rw (h.0) (ap (◌∷◌ e.fields) (map-append-plain [] held h.1))
map-append-plain (e ∷ live) held h = ap (◌∷◌ (flatten e)) (map-append-plain live held h)

length-map : (f : Event → Row) (xs : List Event) → length (map f xs) ≡ length xs
length-map f [] = refl
length-map f (x ∷ xs) = ap suc (length-map f xs)

-- A table shows at most a hundred rows, the live events first and then those of the snapshot, each
-- flattened: the two ways in which the pages write this agree where no event of the snapshot has
-- a payload.
pub scaling_rows-feed_rows :
    (live : List Event) (held : Option (List Event))
    → All (λ event. event.payload ≡ none) (events_or_empty held)
    → (scaling_rows live held ≡ feed_rows live held) × (length (feed_rows live held) ≤ most)
unfolding scaling_rows feed_rows
scaling_rows-feed_rows live held plain =
    let all = live ++ events_or_empty held in
    let same =
      ap (take most) (sym (map-append-plain live (events_or_empty held) plain))
      ∙ sym (map-take flatten most all) in
    let short = length-take-le most all in (same, rw (length-map flatten (take most all)) short)

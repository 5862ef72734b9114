-- ===== src/Frontend/Api/Shown.antt =====
-- What the dashboard shows after its polls, whatever becomes of them.
use aiself_healer.Common.{true, false, Option, none, some, List, [], ◌∷◌, ◌≡◌, ◌∙◌, refl, ap, map}
use aiself_healer.Frontend.Shape.{Snapshot}
use aiself_healer.Frontend.Api.{
  Fetched, thrown, answered, Settled, resolved, rejected, get_snapshot, data_or,
}

-- What is to be shown after polls, the latest first. The latest decides: a body that parsed, or
-- the fall-back where the gateway did not answer with success. A success with a body that does
-- not parse leaves what was shown before.
abbrev pub latest : Snapshot → List (Fetched Snapshot) → Snapshot
latest fallback [] = fallback
latest fallback (thrown ∷ polls) = fallback
latest fallback (answered false body ∷ polls) = fallback
latest fallback (answered true (some snapshot) ∷ polls) = snapshot
latest fallback (answered true none ∷ polls) = latest fallback polls

-- The query package keeps the last result that was resolved.
module _ (query : List (Settled Snapshot) → Option Snapshot) (query-none : query [] ≡ none)
    (query-resolved : (s : Snapshot) (polls : List (Settled Snapshot))
      → query (resolved s ∷ polls) ≡ some s)
    (query-rejected : (polls : List (Settled Snapshot)) → query (rejected ∷ polls) ≡ query polls)
    (fallback : Snapshot) where
  -- After any polls the dashboard shows a snapshot, the one that the latest of them calls for: no
  -- failure leaves it without one.
  pub get_snapshot-latest :
      (polls : List (Fetched Snapshot))
      → data_or fallback (query (map (get_snapshot fallback) polls)) ≡ latest fallback polls
  unfolding get_snapshot
  get_snapshot-latest [] = rw query-none refl
  get_snapshot-latest (thrown ∷ polls) = ap (data_or fallback) (query-resolved fallback _)
  get_snapshot-latest (answered false body ∷ polls) =
      ap (data_or fallback) (query-resolved fallback _)
  get_snapshot-latest (answered true (some snapshot) ∷ polls) =
      ap (data_or fallback) (query-resolved snapshot _)
  get_snapshot-latest (answered true none ∷ polls) =
      ap (data_or fallback) (query-rejected _) ∙ get_snapshot-latest polls

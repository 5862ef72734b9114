-- ===== src/UserService/App/Series.antt =====
-- The series of the user service's counter.
use aiself_healer.Common.{
  ℕ, String, Bool, true, false, ◌&&◌, List, [], ◌∷◌, ◌==◌, ◌≡◌, refl, arith, nat_eq, any, All,
}
use aiself_healer.UserService.Server.{
  Store, post_user, get_user, patch_user, delete_user, list_users,
}
use aiself_healer.UserService.App.{
  Call, health, metrics, list, registered, create, read, change, remove, unmatched, Readings,
  Labels, Service, answer, serve,
}

abbrev series : String → String → ℕ → Labels
series method route status = record { method = method; route = route; status = status }

-- the series that requests of the routes can have
abbrev pub known : List Labels
known =
    series "GET" "/health" 200
    ∷ series "GET" "/metrics" 200
    ∷ series "GET" "/registry" 200
    ∷ series "GET" "/users" 200
    ∷ series "POST" "/users" 201
    ∷ series "POST" "/users" 400
    ∷ series "GET" "/users/:id" 200
    ∷ series "GET" "/users/:id" 404
    ∷ series "PATCH" "/users/:id" 200
    ∷ series "PATCH" "/users/:id" 404
    ∷ series "DELETE" "/users/:id" 200
    ∷ series "DELETE" "/users/:id" 404
    ∷ []

abbrev pub same_series : Labels → Labels → Bool
same_series a b = a.method == b.method && a.route == b.route && nat_eq a.status b.status

abbrev pub is_known : Labels → Bool
is_known l = any (same_series l) known

abbrev pub is_matched : Call → Bool
is_matched (unmatched method url) = false
is_matched _ = true

-- the service after requests, the latest first
pub after : Service → List (Readings × Call) → Service
after s [] = s
after s ((r, call) ∷ calls) = (serve (after s calls) r call).0

serve-known :
    (s : Service) (r : Readings) (call : Call)
    → is_matched call ≡ true
    → All (λ l. is_known l ≡ true) s.counted
    → All (λ l. is_known l ≡ true) (serve s r call).0.counted
unfolding serve answer list_users post_user get_user patch_user delete_user
serve-known s r health m h = (refl, h)
serve-known s r metrics m h = (refl, h)
serve-known s r registered m h = (refl, h)
serve-known s r list m h = (refl, h)
serve-known s r (create body) m h = (ground arith, h)
serve-known s r (read id) m h = (ground arith, h)
serve-known s r (change id body) m h = (ground arith, h)
serve-known s r (remove id) m h = (ground arith, h)
serve-known s r (unmatched method url) m h = ground (arith, m)

-- Whatever requests of its routes the service answers, the counter has no other series than the
-- twelve known ones: no id and no text of a request becomes a label.
pub after-known :
    (store : Store) (calls : List (Readings × Call))
    → All (λ c. is_matched c.1 ≡ true) calls
    → All (λ l. is_known l ≡ true) (after (record { store = store; counted = [] }) calls).counted
unfolding after
after-known store [] m = tt
after-known store ((r, call) ∷ calls) m =
    serve-known (after (record { store = store; counted = [] }) calls) r call m.0
      (after-known store calls m.1)

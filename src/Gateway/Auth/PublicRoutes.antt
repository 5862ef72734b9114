-- ===== src/Gateway/Auth/PublicRoutes.antt =====
-- Which paths need no token.
use aiself_healer.Common.{
  String, true, ◌==◌, ◌≡◌, ◌⊎◌, ◌↔◌, after_prefix, ◌<>◌, arith, eq_iff, after_prefix-append,
  append-after_prefix, inl, inr, Option-cases, Memᴰ, any, any-mem, any_of_mem, refl, false, sym,
  or-cases, ◌||◌,
}
use aiself_healer.Gateway.Auth.{
  auth_base, auth_openings, starts, is_public_route, public_routes, whole, begins, test,
}

-- A path of the dashboard or of a probe, or one that goes on in any way after one of the openings
-- of the authentication service.
abbrev pub IsOpen : String → Type 0
IsOpen path =
    (path ≡ "/health")
    ⊎ (path ≡ "/ready")
    ⊎ (path ≡ "/metrics")
    ⊎ (path ≡ "/api/v1/dashboard/snapshot")
    ⊎ ((opening : String) × (rest : String) × Memᴰ opening auth_openings
        × (path ≡ (auth_base <> opening) <> rest))

starts_iff : (path p : String) → (starts path p ≡ true) ↔ ((rest : String) × (path ≡ p <> rest))
starts_iff path p = (
  λ h. elim (Option-cases (after_prefix p path)) [
    | inl missed ↦ absurd (ground arith)
    | inr (rest, e) ↦ (rest, append-after_prefix p path rest e)
  ],
  λ r. rw (r.1, starts) (rw (after_prefix-append p r.0) refl),
)

opens_iff :
    (path : String)
    → (any (λ a. starts path (auth_base <> a)) auth_openings ≡ true) ↔ (
        (opening : String) × (rest : String) × Memᴰ opening auth_openings
        × (path ≡ (auth_base <> opening) <> rest))
opens_iff path = (
  λ h.
      let (opening, listed, e) = any-mem (λ a. starts path (auth_base <> a)) auth_openings h in
      let (rest, same) = (starts_iff path (auth_base <> opening)).0 e in
      (opening, rest, listed, same),
  λ r.
      any_of_mem (λ a. starts path (auth_base <> a)) r.0 auth_openings r.2
        ((starts_iff path (auth_base <> r.0)).1 (r.1, r.3)),
)

-- A path is let through without a token exactly when it is one of the four whole paths, or begins
-- with one of the five openings of the auth service, whatever follows.
pub is_public_route_iff : (path : String) → (is_public_route path ≡ true) ↔ IsOpen path
unfolding is_public_route
is_public_route_iff path = (to, from)
  where
    tail_to :
        (any (λ a. starts path (auth_base <> a)) auth_openings
            || ("/api/v1/dashboard/snapshot" == path || false))
          ≡ true
        → (path ≡ "/api/v1/dashboard/snapshot")
          ⊎ ((opening : String) × (rest : String) × Memᴰ opening auth_openings
              × (path ≡ (auth_base <> opening) <> rest))
    tail_to h = elim (or-cases _ _ h) [
      | inl e ↦ inr ((opens_iff path).0 e)
      | inr e ↦ inl (ground (arith, eq_iff "/api/v1/dashboard/snapshot" path))
    ]

    to : is_public_route path ≡ true → IsOpen path
    to h = elim (or-cases _ _ h) [
      | inl e ↦ inl (sym ((eq_iff _ _).0 e))
      | inr h₁ ↦ elim (or-cases _ _ h₁) [
        | inl e ↦ inr (inl (sym ((eq_iff _ _).0 e)))
        | inr h₂ ↦ elim (or-cases _ _ h₂) [
          | inl e ↦ inr (inr (inl (sym ((eq_iff _ _).0 e))))
          | inr h₃ ↦ inr (inr (inr (tail_to h₃)))
        ]
      ]
    ]

    listed :
        (text : String)
        → Memᴰ (whole text) public_routes
        → path ≡ text
        → is_public_route path ≡ true
    listed text m e =
        any_of_mem (test path) (whole text) public_routes m ((eq_iff text path).1 (sym e))

    from : IsOpen path → is_public_route path ≡ true
    from (inl e) = listed _ (Memᴰ.head refl) e
    from (inr (inl e)) = listed _ (Memᴰ.tail (Memᴰ.head refl)) e
    from (inr (inr (inl e))) = listed _ (Memᴰ.tail (Memᴰ.tail (Memᴰ.head refl))) e
    from (inr (inr (inr (inl e)))) =
        listed _ (Memᴰ.tail (Memᴰ.tail (Memᴰ.tail (Memᴰ.tail (Memᴰ.head refl))))) e
    from (inr (inr (inr (inr r)))) =
        any_of_mem (test path) (begins auth_base auth_openings) public_routes
          (Memᴰ.tail (Memᴰ.tail (Memᴰ.tail (Memᴰ.head refl)))) ((opens_iff path).1 r)

-- ===== src/Frontend/Session/Requests.antt =====
-- The requests that the dashboard sends to the chaos service.
use mathlib.Core.Path.{subst}
use aiself_healer.Common.{
  ℕ, String, Bool, true, Option, none, some, List, [], ◌∷◌, ◌++◌, ◌==◌, ◌≡◌, ◌⊎◌, inl, inr, refl,
  arith, map, any, find, All, All-append, Memᴰ, mem-append_cases, mem-cons_cases, eq_refl, eq_iff,
  Bool-cases,
}
use aiself_healer.Frontend.Snapshot.{Service}
use aiself_healer.Frontend.Shape.{Snapshot}
use aiself_healer.Frontend.Overview.{shown_service, id_of, first_service, is_selected, found_or}
use aiself_healer.Frontend.Overview.Graph.{ids-merge}
use aiself_healer.Frontend.Markup.{set_active, select, run_chaos, actions}
use aiself_healer.Frontend.View.Strips.{tabs}
use aiself_healer.Frontend.View.Offers.{tab_actions, page_actions, map_actions, actions-view}
use aiself_healer.Frontend.Session.{
  ChaosRequest, chaos_request, Session, Setting, Input, act, told, polled, chaos_done, selection,
  data_of, snapshot_of, page, apply, request, IsOffered, AreOffered,
}

mem-map_cases :
    {A B : Type 0} (f : A → B) (b : B) (xs : List A) → Memᴰ b (map f xs) → (x : A) × (b ≡ f x)
mem-map_cases f b [] m = elim m [ ]
mem-map_cases f b (x ∷ xs) m = elim (mem-cons_cases m) [
  | inl e ↦ (x, e)
  | inr rest ↦ mem-map_cases f b xs rest
]

-- What an offered experiment is.
record IsExperiment (active : String) (shown : Option String) (experiment : String)
    (service : Option String) : Type 0 where
  on_map : active ≡ "map"
  named : (experiment ≡ "pod_kill") ⊎ (experiment ≡ "network_latency")
  on_shown : service ≡ shown

on_map-IsExperiment :
    (snapshot : Snapshot) (selected : Option String) (active e : String) (n : Option String)
    → active ≡ "map"
    → Memᴰ (run_chaos e n) (map_actions snapshot selected)
    → IsExperiment active (id_of (shown_service snapshot selected)) e n
on_map-IsExperiment snapshot selected active e n on m =
    elim (mem-append_cases (map select (map (λ s. s.id) snapshot.services)) _ m) [
      | inl tapped ↦ absurd (let (x, same) = mem-map_cases select _ _ tapped in cc)
      | inr button ↦ elim (mem-cons_cases button) [
        | inl kill ↦ record { on_map = on; named = inl (cc); on_shown = cc }
        | inr more ↦ elim (mem-cons_cases more) [
          | inl latency ↦ record { on_map = on; named = inr (cc); on_shown = cc }
          | inr nothing ↦ elim nothing [ ]
        ]
      ]
    ]

offered-IsExperiment :
    (snapshot : Snapshot) (selected : Option String) (active e : String) (n : Option String)
    → Memᴰ (run_chaos e n) (tab_actions ++ page_actions active snapshot selected)
    → IsExperiment active (id_of (shown_service snapshot selected)) e n
offered-IsExperiment snapshot selected active e n m =
    elim (mem-append_cases tab_actions (page_actions active snapshot selected) m) [
      | inl tab ↦ absurd (let (x, same) = mem-map_cases (λ t. set_active t.id) _ tabs tab in cc)
      | inr own ↦ elim (Bool-cases (active == "map")) [
        | inl on ↦
            on_map-IsExperiment snapshot selected active e n ((eq_iff active "map").0 on)
              (rw on at own)
        | inr off ↦
            absurd (let none_left : Memᴰ (run_chaos e n) [] = rw off at own in elim none_left [ ])
      ]
    ]

-- A service that a request names is one of these, and there is one if there are any.
abbrev pub IsNamed : Option String → List (Service ℕ) → Type 0
IsNamed none services = services ≡ []
IsNamed (some id) services = any (λ other. other == id) (map (λ s. s.id) services) ≡ true

find-IsNamed :
    (p : Service ℕ → Bool) (services : List (Service ℕ)) (s : Service ℕ)
    → find p services ≡ some s
    → IsNamed (some s.id) services
find-IsNamed p [] s h = ground arith
find-IsNamed p (first ∷ services) s h =
    ground (arith, h, eq_refl first.id, find-IsNamed p services s)

found_or-IsNamed :
    (o : Option (Service ℕ)) (services : List (Service ℕ))
    → ((s : Service ℕ) → o ≡ some s → IsNamed (some s.id) services)
    → IsNamed (id_of (found_or o (first_service services))) services
found_or-IsNamed (some s) services h = h s refl
found_or-IsNamed none [] h = refl
found_or-IsNamed none (first ∷ services) h = ground (arith, eq_refl first.id)

shown-IsNamed :
    (snapshot : Snapshot) (selected : Option String)
    → IsNamed (id_of (shown_service snapshot selected)) snapshot.services
unfolding shown_service
shown-IsNamed snapshot selected =
    found_or-IsNamed (find (is_selected selected) snapshot.services) snapshot.services
      (find-IsNamed (is_selected selected) snapshot.services)

IsNamed-map :
    (n : Option String) (xs ys : List (Service ℕ))
    → map (λ s. s.id) xs ≡ map (λ s. s.id) ys
    → IsNamed n xs
    → IsNamed n ys
IsNamed-map (some id) xs ys same h = rw (← same) h
IsNamed-map none xs [] same h = refl
IsNamed-map none xs (y ∷ ys) same h = absurd (let e : map (λ s. s.id) xs ≡ [] = rw h refl in cc)

module _ {E : Type 0} (setting : Setting E) where
  -- A request for a dry run of one of the two experiments, on the map's page, on a service of the
  -- latest data: the one that the page shows.
  pub record IsFor (s : Session E) (r : ChaosRequest) : Type 0 where
    pub on_map : s.app.active ≡ "map"
    pub experiment : (r.experiment ≡ "pod_kill") ⊎ (r.experiment ≡ "network_latency")
    pub dry_run : r.dry_run ≡ true
    pub shown :
        r.service_name ≡ id_of (shown_service (snapshot_of setting s) (selection s.selected))
    pub named : IsNamed r.service_name (data_of setting s.polls).services

  pub request-IsFor :
      (s : Session E) (e : String) (n : Option String)
      → Memᴰ (run_chaos e n) (actions (page setting s))
      → IsFor s (chaos_request e n)
  unfolding chaos_request
  request-IsFor s e n m =
      let held = data_of setting s.polls in
      let offered : Memᴰ (run_chaos e n) (
          tab_actions ++ page_actions s.app.active (snapshot_of setting s) (selection s.selected)) =
        subst (Memᴰ (run_chaos e n)) (actions-view _ _ _ _ _ _ _ _) m in
      let h =
        offered-IsExperiment (snapshot_of setting s) (selection s.selected) s.app.active e n
          offered in
      record {
        on_map = h.on_map;
        experiment = h.named;
        dry_run = refl;
        shown = h.on_shown;
        named =
            IsNamed-map n (snapshot_of setting s).services held.services (ids-merge _ held.services)
              (rw h.on_shown (shown-IsNamed (snapshot_of setting s) (selection s.selected)));
      }

  -- the requests of a run, each with the session in which it is sent
  abbrev pub sent : Session E → List (Input E) → List (Session E × ChaosRequest)
  sent s [] = []
  sent s (i ∷ inputs) = map (λ r. (s, r)) (request setting i) ++ sent (apply setting s i) inputs

  abbrev pub IsForOne : Session E × ChaosRequest → Type 0
  IsForOne (s, r) = IsFor s r

  request-IsForOne :
      (s : Session E) (i : Input E)
      → IsOffered setting s i
      → All IsForOne (map (λ r. (s, r)) (request setting i))
  request-IsForOne s (act (run_chaos e n)) h = (request-IsFor s e n h, tt)
  request-IsForOne s (act (set_active id)) h = tt
  request-IsForOne s (act (select id)) h = tt
  request-IsForOne s (told m) h = tt
  request-IsForOne s (polled result) h = tt
  request-IsForOne s (chaos_done result) h = tt

  -- Whatever the user does with what the page offers, and whatever arrives meanwhile, each request
  -- that is sent to the chaos service is for a dry run of one of the two experiments, sent from the
  -- map's page, on the service that this page shows; that is a service of the latest data, and only
  -- data without services leaves it out.
  pub sent-IsFor :
      (s : Session E) (inputs : List (Input E))
      → AreOffered setting s inputs
      → All IsForOne (sent s inputs)
  sent-IsFor s [] h = tt
  sent-IsFor s (i ∷ inputs) h =
      All-append IsForOne (map (λ r. (s, r)) (request setting i)) _ (request-IsForOne s i h.0)
        (sent-IsFor (apply setting s i) inputs h.1)

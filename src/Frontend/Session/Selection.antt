-- ===== src/Frontend/Session/Selection.antt =====
-- The service that the user selected, while more arrives.
use aiself_healer.Common.{
  ℕ, String, Bool, true, false, Option, none, some, List, [], ◌∷◌, ◌==◌, ◌≡◌, ◌∙◌, inl, inr, refl,
  ap, arith, map, any, find, eq_iff, All, if◌then◌else◌, Bool-cases, is_some,
}
use aiself_healer.Frontend.Snapshot.{Service}
use aiself_healer.Frontend.Overview.{shown_service, id_of, first_service, is_selected, found_or}
use aiself_healer.Frontend.Overview.Graph.{ids-merge}
use aiself_healer.Frontend.Api.{resolved, rejected, chaos_settled}
use aiself_healer.Frontend.Markup.{set_active, select, run_chaos}
use aiself_healer.Frontend.Session.{
  Session, Setting, Input, act, told, polled, chaos_done, data_of, snapshot_of, chaos_request,
  perform, apply, run, IsOffered,
}
use aiself_healer.Frontend.Session.Requests.{request-IsFor}

-- The user neither changes the tab nor selects.
abbrev pub keeps_selection : {E : Type 0} → Input E → Bool
keeps_selection (act (set_active id)) = false
keeps_selection (act (select id)) = false
keeps_selection (act (run_chaos e n)) = true
keeps_selection (told m) = true
keeps_selection (polled result) = true
keeps_selection (chaos_done result) = true

abbrev pub KeepSelection : {E : Type 0} → List (Input E) → Type 0
KeepSelection inputs = All (λ i. keeps_selection i ≡ true) inputs

abbrev first_id : List String → Option String
first_id [] = none
first_id (id ∷ ids) = some id

-- an id that is among those of the services, or the first of them
abbrev pub id_or_first : String → List (Service ℕ) → Option String
id_or_first id services =
    if any (λ other. other == id) (map (λ s. s.id) services)
    then some id
    else id_of (first_service services)

id_of-first_service :
    (services : List (Service ℕ))
    → id_of (first_service services) ≡ first_id (map (λ s. s.id) services)
id_of-first_service [] = refl
id_of-first_service (s ∷ services) = refl

id_or_first-ids :
    (id : String) (xs ys : List (Service ℕ))
    → map (λ s. s.id) xs ≡ map (λ s. s.id) ys
    → id_or_first id xs ≡ id_or_first id ys
id_or_first-ids id xs ys same = rw (id_of-first_service xs, id_of-first_service ys, same) refl

id_of-find :
    (id : String) (services : List (Service ℕ)) (other : Option (Service ℕ))
    → id_of (found_or (find (is_selected (some id)) services) other)
      ≡ (if any (λ o. o == id) (map (λ s. s.id) services) then some id else id_of other)
id_of-find id [] other = refl
id_of-find id (s ∷ services) other = elim (Bool-cases (s.id == id)) [
  | inl same ↦ rw same (ap some ((eq_iff s.id id).0 same))
  | inr differ ↦ rw differ (id_of-find id services other)
]

module _ {E : Type 0} (setting : Setting E) where
  apply-selected :
      (s : Session E) (i : Input E)
      → keeps_selection i ≡ true
      → (apply setting s i).selected ≡ s.selected
  unfolding apply perform chaos_settled
  apply-selected s (act (set_active id)) h = cc
  apply-selected s (act (select id)) h = cc
  apply-selected s (act (run_chaos e n)) h = refl
  apply-selected s (told m) h = refl
  apply-selected s (polled result) h = refl
  apply-selected s (chaos_done (resolved r)) h = refl
  apply-selected s (chaos_done rejected) h = refl

  run-selected :
      (s : Session E) (inputs : List (Input E))
      → KeepSelection inputs
      → (run setting s inputs).selected ≡ s.selected
  unfolding run
  run-selected s [] h = refl
  run-selected s (i ∷ inputs) h =
      run-selected (apply setting s i) inputs h.1 ∙ apply-selected s i h.0

  -- the session after a tap on a node and further inputs
  abbrev pub after_select : Session E → String → List (Input E) → Session E
  after_select s id inputs = run setting (apply setting s (act (select id))) inputs

  after_select-selected :
      (s : Session E) (id : String) (inputs : List (Input E))
      → is_some s.selected ≡ true
      → KeepSelection inputs
      → (after_select s id inputs).selected ≡ some (some id)
  unfolding apply perform
  after_select-selected s id inputs drawn h =
      run-selected (apply setting s (act (select id))) inputs h ∙ ground (arith, drawn)

  -- After the user has selected a service on the map, and for as long as neither the tab nor the
  -- selection is changed, an experiment that the page offers is on that service, whatever events and
  -- polls arrive; or on the first one where the latest data has no service of that id.
  pub select-request :
      (s : Session E) (id : String) (inputs : List (Input E)) (e : String) (n : Option String)
      → is_some s.selected ≡ true
      → KeepSelection inputs
      → IsOffered setting (after_select s id inputs) (act (run_chaos e n))
      → n ≡ id_or_first id (data_of setting (after_select s id inputs).polls).services
  unfolding shown_service chaos_request
  select-request s id inputs e n drawn h offered =
      let s' = after_select s id inputs in
      let now = snapshot_of setting s' in
      (request-IsFor setting s' e n offered).shown
      ∙ rw (after_select-selected s id inputs drawn h)
          (id_of-find id now.services (first_service now.services))
      ∙ id_or_first-ids id now.services _ (ids-merge _ (data_of setting s'.polls).services)

-- ===== src/Frontend/Session/Pages.antt =====
-- Which page the dashboard draws.
use mathlib.Core.Path.{subst}
use aiself_healer.Common.{
  String, Bool, true, false, Option, none, some, List, [], ◌∷◌, ◌++◌, ◌==◌, ◌≡◌, ◌∙◌, inl, inr,
  refl, sym, map, length, Memᴰ, mem-append_cases, mem-cons_cases, if◌then◌else◌, Bool-cases,
  is_some,
}
use aiself_healer.Frontend.Realtime.{Slice}
use aiself_healer.Frontend.Shape.{Event, Snapshot}
use aiself_healer.Frontend.Api.{resolved, rejected, chaos_settled}
use aiself_healer.Frontend.Markup.{set_active, select, run_chaos, count_class}
use aiself_healer.Frontend.View.Strips.{tabs, tab_class, header}
use aiself_healer.Frontend.View.Page.{page_of}
use aiself_healer.Frontend.View.Offers.{tab_actions, page_actions, map_actions, actions-view}
use aiself_healer.Frontend.Session.{
  Session, Setting, Input, act, told, polled, chaos_done, selection, kept_or, reselected,
  snapshot_of, start, perform, apply, run, IsOffered, AreOffered,
}

abbrev tab_ids : List String
tab_ids = map (λ t. t.id) tabs

-- A statement on each tab holds for every tab.
tab_cases :
    (P : String → Type 0)
    → P "map"
    → P "metrics"
    → P "anomalies"
    → P "healing"
    → P "scaling"
    → (id : String) → Memᴰ id tab_ids
    → P id
tab_cases P a b c d e id m = elim (mem-cons_cases m) [
  | inl same ↦ subst P (sym same) a
  | inr m ↦ elim (mem-cons_cases m) [
    | inl same ↦ subst P (sym same) b
    | inr m ↦ elim (mem-cons_cases m) [
      | inl same ↦ subst P (sym same) c
      | inr m ↦ elim (mem-cons_cases m) [
        | inl same ↦ subst P (sym same) d
        | inr m ↦ elim (mem-cons_cases m) [ inl same ↦ subst P (sym same) e | inr m ↦ elim m [ ] ]
      ]
    ]
  ]
]

mem-map_id :
    (id : String) (xs : List String) → Memᴰ (set_active id) (map set_active xs) → Memᴰ id xs
mem-map_id id [] m = elim m [ ]
mem-map_id id (x ∷ xs) m = elim (mem-cons_cases m) [
  | inl e ↦ Memᴰ.head (cc)
  | inr rest ↦ Memᴰ.tail (mem-map_id id xs rest)
]

select_only : (id : String) (ids : List String) → ¬ Memᴰ (set_active id) (map select ids)
select_only id [] m = elim m [ ]
select_only id (x ∷ ids) m = elim (mem-cons_cases m) [
  | inl e ↦ cc
  | inr rest ↦ select_only id ids rest
]

not_on_map :
    (id : String) (snapshot : Snapshot) (selected : Option String)
    → ¬ Memᴰ (set_active id) (map_actions snapshot selected)
not_on_map id snapshot selected m =
    elim (mem-append_cases (map select (map (λ s. s.id) snapshot.services)) _ m) [
      | inl tapped ↦ select_only id _ tapped
      | inr button ↦ elim (mem-cons_cases button) [
        | inl kill ↦ cc
        | inr more ↦ elim (mem-cons_cases more) [
          | inl latency ↦ cc
          | inr nothing ↦ elim nothing [ ]
        ]
      ]
    ]

offered_tab :
    (id active : String) (snapshot : Snapshot) (selected : Option String)
    → Memᴰ (set_active id) (tab_actions ++ page_actions active snapshot selected)
    → Memᴰ id tab_ids
offered_tab id active snapshot selected m =
    elim (mem-append_cases tab_actions (page_actions active snapshot selected) m) [
      | inl tab ↦ mem-map_id id tab_ids tab
      | inr own ↦ absurd (elim (Bool-cases (active == "map")) [
        | inl on ↦ not_on_map id snapshot selected (rw on at own)
        | inr off ↦ (let none_left : Memᴰ (set_active id) [] = rw off at own in elim none_left [ ])
      ])
    ]

module _ {E : Type 0} (setting : Setting E) where
  -- The active tab is one of the five, and the map's page has its state while it is drawn.
  record IsValid (s : Session E) : Type 0 where
    tab : Memᴰ s.app.active tab_ids
    mounted : is_some s.selected ≡ (s.app.active == "map")

  start-IsValid : IsValid (start setting)
  unfolding start
  start-IsValid = record { tab = Memᴰ.head refl; mounted = refl }

  is_some-kept_or :
      (b : Bool) (o : Option (Option String)) (first : Option String)
      → is_some (if b then kept_or o first else none) ≡ b
  is_some-kept_or true none first = refl
  is_some-kept_or true (some s) first = refl
  is_some-kept_or false o first = refl

  is_some-reselected :
      (o : Option (Option String)) (id : String) → is_some (reselected o id) ≡ is_some o
  is_some-reselected none id = refl
  is_some-reselected (some s) id = refl

  apply-IsValid :
      (s : Session E) (i : Input E)
      → IsOffered setting s i
      → IsValid s
      → IsValid (apply setting s i)
  unfolding apply perform chaos_settled
  apply-IsValid s (act (set_active id)) h v = record {
    tab =
        offered_tab id s.app.active (snapshot_of setting s) (selection s.selected)
          (subst (Memᴰ (set_active id)) (actions-view _ _ _ _ _ _ _ _) h);
    mounted = is_some-kept_or (id == "map") s.selected _;
  }
  apply-IsValid s (act (select id)) h v = record {
    tab = v.tab;
    mounted = is_some-reselected s.selected id ∙ v.mounted;
  }
  apply-IsValid s (act (run_chaos e n)) h v = v
  apply-IsValid s (told m) h v = record { tab = v.tab; mounted = v.mounted }
  apply-IsValid s (polled result) h v = record { tab = v.tab; mounted = v.mounted }
  apply-IsValid s (chaos_done (resolved r)) h v = record { tab = v.tab; mounted = v.mounted }
  apply-IsValid s (chaos_done rejected) h v = record { tab = v.tab; mounted = v.mounted }

  run-IsValid :
      (s : Session E) (inputs : List (Input E))
      → AreOffered setting s inputs
      → IsValid s
      → IsValid (run setting s inputs)
  unfolding run
  run-IsValid s [] h v = v
  run-IsValid s (i ∷ inputs) h v =
      run-IsValid (apply setting s i) inputs h.1 (apply-IsValid s i h.0 v)

  -- Exactly one tab is marked and exactly one page is drawn.
  pub record IsOnePage (s : Session E) : Type 0 where
    pub marked : count_class (tab_class true) (header s.store.connected s.app.active) ≡ 1
    pub drawn :
        length (
          page_of setting.env setting.local_time setting.now s.app.active
            (λ key. map setting.as_event (s.store.slices key))
            (snapshot_of setting s)
            (selection s.selected))
        ≡ 1
    pub mounted : is_some s.selected ≡ (s.app.active == "map")

  marked-tab :
      (connected : Bool) (id : String)
      → Memᴰ id tab_ids
      → count_class (tab_class true) (header connected id) ≡ 1
  unfolding count_class header
  marked-tab true = tab_cases _ refl refl refl refl refl
  marked-tab false = tab_cases _ refl refl refl refl refl

  drawn-tab :
      (live : Slice → List Event) (snapshot : Snapshot) (selected : Option String) (id : String)
      → Memᴰ id tab_ids
      → length (page_of setting.env setting.local_time setting.now id live snapshot selected) ≡ 1
  unfolding page_of
  drawn-tab live snapshot selected = tab_cases _ refl refl refl refl refl

  -- Whatever the user does with what the page offers, and whatever arrives meanwhile, exactly one
  -- tab is marked and exactly one page is drawn; the map's selection lasts while its page does.
  pub run-IsOnePage :
      (inputs : List (Input E))
      → AreOffered setting (start setting) inputs
      → IsOnePage (run setting (start setting) inputs)
  run-IsOnePage inputs h =
      let v = run-IsValid (start setting) inputs h start-IsValid in
      record { marked = marked-tab _ _ v.tab; drawn = drawn-tab _ _ _ _ v.tab; mounted = v.mounted }

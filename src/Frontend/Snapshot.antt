-- ===== src/Frontend/Snapshot.antt =====
-- The merge of health events into the snapshot, of frontend/src/App.jsx. The numbers of a service
-- are of any type: the merge does not compute with them.
use aiself_healer.Common.{
  String, false, Option, none, some, List, [], ◌∷◌, ◌==◌, if◌then◌else◌, ◌≡◌, ◌∙◌, refl, ap, arith,
  map, Bool, Option-cases, inl, inr, sym,
}
use aiself_healer.JsMap
use aiself_healer.JsMap.{JsMap}
use aiself_healer.JsMap.Laws.{get-set}

module _ (V : Type 0) where
  pub record Score : Type 0 where
    pub health_score : V
    pub status : String
    pub p99_latency_ms : V

  -- `event.service_id` and `event.payload?.score`
  pub record HealthEvent : Type 0 where
    pub service_id : Option String
    pub score : Option Score

  pub record Service : Type 0 where
    pub id : String
    pub name : String
    pub health_score : V
    pub p99_latency_ms : V
    pub error_rate : V
    pub throughput_rps : V
    pub replicas : V
    pub status : String

  -- `new Map(…)` from a map on: each event writes its key. An event of no service has the key
  -- `undefined`, which no service asks for.
  unfoldable pub write_all : JsMap (Option Score) → List HealthEvent → JsMap (Option Score)
  write_all m [] = m
  write_all m (e ∷ es) = elim e.service_id [
    | none ↦ write_all m es
    | some id ↦ write_all (JsMap.set id e.score m) es
  ]

  -- `score ? { ...service, … } : service`
  abbrev pub with_score : Option (Option Score) → Service → Service
  with_score none s = s
  with_score (some none) s = s
  with_score (some (some score)) s = record s {
    health_score = score.health_score;
    status = score.status;
    p99_latency_ms = score.p99_latency_ms;
  }

  unfoldable pub merge : List HealthEvent → List Service → List Service
  merge [] services = services
  merge (e ∷ es) services =
      let health_by_service = write_all [] (e ∷ es) in
      map (λ s. with_score (JsMap.get s.id health_by_service) s) services

  abbrev is_of : String → Option String → Bool
  is_of id none = false
  is_of id (some other) = other == id

  abbrev instead : Option (Option Score) → Option (Option Score) → Option (Option Score)
  instead none d = d
  instead (some s) d = some s

  -- what the last event of a service in the list says, which is the oldest in a list that has the
  -- latest first
  abbrev pub oldest : String → List HealthEvent → Option (Option Score)
  oldest id [] = none
  oldest id (e ∷ es) =
      let older = oldest id es in
      instead older (if is_of id e.service_id then some e.score else none)

  get-write_all :
      (id : String) (es : List HealthEvent) (m : JsMap (Option Score))
      → JsMap.get id (write_all m es) ≡ instead (oldest id es) (JsMap.get id m)
  unfolding write_all
  get-write_all id [] m = refl
  get-write_all id (e ∷ es) m = elim (Option-cases e.service_id) [
    | inl missing ↦ rw (missing, write_all) (ground (arith, get-write_all id es m))
    | inr (own, given) ↦
        rw (given, write_all)
          (ground (arith, get-write_all id es (JsMap.set own e.score m), get-set own id e.score m))
  ]

  map_same : (ss : List Service) → map (λ s. s) ss ≡ ss
  map_same [] = refl
  map_same (s ∷ ss) = ap (◌∷◌ s) (map_same ss)

  map_ext :
      (f g : Service → Service) (ss : List Service)
      → ((s : Service) → f s ≡ g s)
      → map f ss ≡ map g ss
  map_ext f g [] h = refl
  map_ext f g (s ∷ ss) h = ground (arith, h s, map_ext f g ss h)

  instead-none : (d : Option (Option Score)) → instead d none ≡ d
  instead-none none = refl
  instead-none (some s) = refl

  from_empty : (id : String) (es : List HealthEvent) → JsMap.get id (write_all [] es) ≡ oldest id es
  unfolding JsMap.get
  from_empty id es = get-write_all id es [] ∙ instead-none (oldest id es)

  -- Every service of the merged snapshot shows the last event in the list that names it, and is
  -- as it was where none does or where that event carries no score.
  pub merge-oldest :
      (es : List HealthEvent) (services : List Service)
      → merge es services ≡ map (λ s. with_score (oldest s.id es) s) services
  unfolding merge
  merge-oldest [] services = sym (map_same services)
  merge-oldest (e ∷ es) services =
      map_ext _ _ services (λ s. ap (λ o. with_score o s) (from_empty s.id (e ∷ es)))

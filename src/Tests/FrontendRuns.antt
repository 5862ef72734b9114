-- ===== src/Tests/FrontendRuns.antt =====
-- The dashboard's store and snapshot at a few events.
use aiself_healer.Common.{ℕ, some, [], ◌∷◌, ◌≡◌, map}
use aiself_healer.Frontend.Snapshot.{HealthEvent, Service, merge, with_score, oldest, merge-oldest}

abbrev pub scored : ℕ → HealthEvent ℕ
scored n = record {
  service_id = some "cart";
  score = some (record { health_score = n; status = "healthy"; p99_latency_ms = n });
}

abbrev pub cart : Service ℕ
cart = record {
  id = "cart";
  name = "cart";
  health_score = 50;
  p99_latency_ms = 900;
  error_rate = 0;
  throughput_rps = 10;
  replicas = 1;
  status = "degraded";
}

merge-oldest_example :
    merge ℕ (scored 90 ∷ scored 70 ∷ []) (cart ∷ [])
    ≡ map (λ s. with_score ℕ (oldest ℕ s.id (scored 90 ∷ scored 70 ∷ [])) s) (cart ∷ [])
merge-oldest_example = merge-oldest ℕ (scored 90 ∷ scored 70 ∷ []) (cart ∷ [])

-- ===== src/Frontend/Overview/Order.antt =====
-- The figures do not depend on the order of the services.
use mathlib.Core.List.{Permᴰ}
use aiself_healer.Common.{ℕ, ◌+◌, Bool, List, ◌≡◌, ◌∙◌, refl, ap, arith, keep, length}
use aiself_healer.Frontend.Snapshot.{Service}
use aiself_healer.Frontend.Overview.{kpis, sum_from}

sum_from-Perm :
    (field : Service ℕ → ℕ) (acc : ℕ) {xs ys : List (Service ℕ)}
    → Permᴰ xs ys
    → sum_from field acc xs ≡ sum_from field acc ys
unfolding sum_from
sum_from-Perm field acc Permᴰ.nil = refl
sum_from-Perm field acc (Permᴰ.cons {a = a} {b = b} e p) =
    rw e (sum_from-Perm field (acc + field b) p)
sum_from-Perm field acc (Permᴰ.swap {a = a} {b = b} {l = l} e e') =
    let same : acc + field a + field b ≡ acc + field b + field a = omega arith in
    rw (← e, ← e') (ap (λ n. sum_from field n l) same)
sum_from-Perm field acc (Permᴰ.trans p q) = sum_from-Perm field acc p ∙ sum_from-Perm field acc q

count-Perm :
    (test : Service ℕ → Bool) {xs ys : List (Service ℕ)}
    → Permᴰ xs ys
    → length (keep test xs) ≡ length (keep test ys)
count-Perm test Permᴰ.nil = refl
count-Perm test (Permᴰ.cons {a = a} {b = b} e p) = rw e (ground (arith, count-Perm test p))
count-Perm test (Permᴰ.swap {a = a} {b = b} e e') = rw (← e, ← e') (ground arith)
count-Perm test (Permᴰ.trans p q) = count-Perm test p ∙ count-Perm test q

length-Perm : {xs ys : List (Service ℕ)} → Permᴰ xs ys → length xs ≡ length ys
length-Perm Permᴰ.nil = refl
length-Perm (Permᴰ.cons e p) = omega (arith, length-Perm p)
length-Perm (Permᴰ.swap e e') = refl
length-Perm (Permᴰ.trans p q) = length-Perm p ∙ length-Perm q

-- The figures above the dashboard are the same in whatever order the services come.
pub kpis-Perm : {xs ys : List (Service ℕ)} → Permᴰ xs ys → kpis xs ≡ kpis ys
unfolding kpis
kpis-Perm p =
    rw
      (
        count-Perm _ p,
        length-Perm p,
        sum_from-Perm (λ s. s.health_score) 0 p,
        sum_from-Perm (λ s. s.throughput_rps) 0 p,
        sum_from-Perm (λ s. s.replicas) 0 p,
      )
      refl

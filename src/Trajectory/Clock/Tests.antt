-- ===== src/Trajectory/Clock/Tests.antt =====
-- A clock that wraps while it is sampled.
use esp32_rid.Prelude.{◌-◌, ◌%◌, ◌^◌, ◌≡◌, [], ◌∷◌, map, arith}
use esp32_rid.Trajectory.Clock.{samples, started, samples_lem}

samples_lem_example :
    samples started 3 (4294967000 ∷ 4294967290 ∷ 4294967300 ∷ [])
    ≡ map
        (λ time. time - (4294967000 - 4294967000 % 2 ^ 32))
        (4294967000 ∷ 4294967290 ∷ 4294967300 ∷ [])
samples_lem_example =
    samples_lem 4294967000 (4294967290 ∷ 4294967300 ∷ []) 3 (omega arith)
      (omega arith, omega arith, omega arith, (omega arith, omega arith, omega arith, tt))

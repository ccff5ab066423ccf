-- ===== src/Locks/Examples.antt =====
-- A lock that one replica takes, on which the theorem about locks is applied.
use godeye.Prelude.{ℕ, ◌≡◌, refl, none, some, arith}
use godeye.Locks.{Run, World, tries, initial, Reach, starts, steps, set_nx, at_replica}
use godeye.Locks.Exclusion.{mutual_exclusion}

abbrev first_run : Run
first_run = record { token = 7; since = 10; ttl = 100 }

abbrev taken : World
unfolding set_nx
taken = record {
  now = 10;
  lock = some (record { token = 7; expires_at = 110 });
  replicas = at_replica (λ i. none) 2 (some first_run);
}

taken_reached : Reach taken
unfolding set_nx taken
taken_reached = steps (starts 10) (tries (initial 10) 2 7 100 refl (λ j r e. ground arith))

mutual_exclusion_example : ◌≡◌ {A = ℕ} 2 2
unfolding taken
mutual_exclusion_example =
    mutual_exclusion 2 2 first_run first_run taken_reached refl refl (omega arith) (omega arith)

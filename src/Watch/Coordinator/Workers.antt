-- ===== src/Watch/Coordinator/Workers.antt =====
-- Counting the workers of a coordinator.
use soft_ue_index.Base.{ℕ, ◌+◌, ◌≡◌, List, [], ◌∷◌, ◌++◌, if◌then◌else◌, arith}
use soft_ue_index.Base.Text.{Bytes, eqb}
use soft_ue_index.Watch.Coordinator.{WorkerPhase, generating, Worker, Coordinator}

-- How many workers hold a permit, and how many belong to a project.
abbrev pub holding_one : WorkerPhase → ℕ
holding_one generating = 1
holding_one _ = 0

unfoldable pub holding : List Worker → ℕ
holding [] = 0
holding (w ∷ ws) = holding_one w.phase + holding ws

unfoldable pub workers_of : Bytes → List Worker → ℕ
workers_of id [] = 0
workers_of id (w ∷ ws) = (if eqb w.id id then 1 else 0) + workers_of id ws

pub holding-append : (xs ys : List Worker) → holding (xs ++ ys) ≡ holding xs + holding ys
unfolding holding
holding-append [] ys = omega arith
holding-append (x ∷ xs) ys = omega (arith, holding-append xs ys)

pub workers_of-append :
    (id : Bytes) (xs ys : List Worker)
    → workers_of id (xs ++ ys) ≡ workers_of id xs + workers_of id ys
unfolding workers_of
workers_of-append id [] ys = omega arith
workers_of-append id (x ∷ xs) ys = omega (arith, workers_of-append id xs ys)

-- Replacing one worker by another of the same project, in another phase.
module _ (s : Coordinator) (before after : List Worker) (id : Bytes) (p q : WorkerPhase)
    (now : s.workers ≡ before ++ (record { id = id; phase = p } ∷ after)) where
  pub moved :
      (k : Bytes)
      → workers_of k (before ++ (record { id = id; phase = q } ∷ after)) ≡ workers_of k s.workers
  unfolding workers_of
  moved k = rw now (rw (workers_of-append k before, workers_of-append k before))

  pub held :
      holding (before ++ (record { id = id; phase = q } ∷ after)) + holding_one p
      ≡ holding s.workers + holding_one q
  unfolding holding
  held = rw now (
      omega (
        arith,
        holding-append before (record { id = id; phase = q } ∷ after),
        holding-append before (record { id = id; phase = p } ∷ after),
      ))

  pub removed :
      (k : Bytes)
      → workers_of k s.workers ≡ (if eqb id k then 1 else 0) + workers_of k (before ++ after)
  unfolding workers_of
  removed k = rw now (
      omega (
        arith,
        workers_of-append k before (record { id = id; phase = p } ∷ after),
        workers_of-append k before after,
      ))

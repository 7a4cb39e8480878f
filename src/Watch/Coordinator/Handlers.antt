-- ===== src/Watch/Coordinator/Handlers.antt =====
-- Invalidate, a timer, and the start of a worker keep the invariant.
use soft_ue_index.Base.{
  ℕ, ◌≡◌, true, false, ◌||◌, Option, some, none, List, [], ◌∷◌, ◌++◌, if◌then◌else◌, arith, refl,
  if_intro, ap, ◌∙◌, Bool-cases, inl, inr, ◌⊎◌,
}
use soft_ue_index.Base.Text.{Bytes, is_empty, eqb, eqb_iff}
use soft_ue_index.Base.Assoc.{lookup}
use soft_ue_index.Base.Store.{put_at}
use soft_ue_index.Base.Int.{ℤ}
use soft_ue_index.Watch.Coordinator.{
  TimerPhase, waiting, Worker, ProjectState, Coordinator, new_coordinator, stop_timer, or_new,
  touch, invalidate, launch, start,
}
use soft_ue_index.Watch.Coordinator.Workers.{holding, workers_of, holding-append, workers_of-append}
use soft_ue_index.Watch.Coordinator.Timers.{
  Keeps-refl, Keeps-put, Keeps-stop_timer, Blank-stop_timer,
}
use soft_ue_index.Watch.Coordinator.Invariant.{
  Inv, Owns-Keeps, running_flag, Wrote-Inv, At, At-or_new, arm-Inv,
}

pub new_coordinator-Inv : (max : ℤ) → Inv (new_coordinator max)
unfolding new_coordinator lookup workers_of holding
new_coordinator-Inv max = record {
  one_worker = λ id. refl;
  permits_held = refl;
  permits_capped = omega arith;
  owns = λ id. tt;
  queued = λ id. tt;
  closed_canceled = λ h. cc;
  fresh = λ t h. refl;
}

pub at_key :
    (s : Coordinator) (id k : Bytes) (n : ℕ)
    → workers_of id s.workers ≡ n
    → workers_of k s.workers ≡ (if eqb id k then n else workers_of k s.workers)
at_key s id k n e = elim (Bool-cases (eqb id k)) [
  | inl same ↦ rw (same, ← (eqb_iff id k).0 same) e
  | inr other ↦ rw other
]

pub touch-Inv :
    (s : Coordinator) (id : Bytes) (p : ProjectState) → Inv s → At s id p → Inv (touch id p s)
unfolding touch
touch-Inv s id p h a =
    if_intro Inv p.running _ _
      (λ busy.
        Wrote-Inv id (record p { pending = true }) h
          (record {
            projects = refl;
            keeps = Keeps-refl s.timers;
            later = omega arith;
            owns = a.own;
            queued = λ q. inl busy;
            workers = λ k. at_key s id k _ a.one;
            permits = h.permits_held;
            capped = h.permits_capped;
            canceled = refl;
            closed = refl;
            fresh = h.fresh;
          }))
      (λ idle.
        arm-Inv s h id p (stop_timer p.timer s.timers) s.workers (Keeps-stop_timer s.timers p.timer)
          (Blank-stop_timer s.timers p.timer) idle (clear idle (Bool-cases p.pending))
          (λ k. at_key s id k 0 (a.one ∙ ap (λ b. if b then 1 else 0) idle)) refl)
  where
    clear :
        p.running ≡ false
        → ((p.pending ≡ true) ⊎ (p.pending ≡ false))
        → ((p.pending ≡ false) ⊎ (s.canceled ≡ true))
    clear idle (inl e) = inr (ground (arith, a.set_aside e))
    clear idle (inr e) = inl e

pub invalidate-Inv : (s : Coordinator) (id : Bytes) → Inv s → Inv (invalidate id s)
unfolding invalidate
invalidate-Inv s id h =
    if_intro Inv (is_empty id) _ _ (λ e. h)
      λ e.
        if_intro Inv s.closed _ _ (λ c. h)
          λ c.
            touch-Inv s id (or_new (lookup id s.projects)) h
              (At-or_new s id (lookup id s.projects) h refl)

-- Moving a timer on keeps the invariant.
pub put_at-Inv :
    (s : Coordinator) (t : ℕ) (id : Bytes) (p q : TimerPhase)
    → Inv s
    → s.timers t ≡ some (record { owner = id; phase = p })
    → Inv (record s { timers = put_at s.timers t (record { owner = id; phase = q }) })
put_at-Inv s t id p q h e = record {
  one_worker = h.one_worker;
  permits_held = h.permits_held;
  permits_capped = h.permits_capped;
  owns = λ k.
      Owns-Keeps k (lookup k s.projects)
        (Keeps-put s.timers t (record { owner = id; phase = p }) (record { owner = id; phase = q })
          e refl)
        (omega arith) (h.owns k);
  queued = h.queued;
  closed_canceled = h.closed_canceled;
  fresh = λ k le. ground (arith, h.fresh k le);
}

pub launched :
    (s : Coordinator) (id k : Bytes)
    → workers_of id s.workers ≡ 0
    → workers_of k (s.workers ++ (record { id = id; phase = waiting } ∷ []))
      ≡ (if eqb id k then 1 else workers_of k s.workers)
unfolding workers_of
launched s id k e = elim (Bool-cases (eqb id k)) [
  | inl same ↦ rw (workers_of-append k s.workers, same, ← (eqb_iff id k).0 same, e)
  | inr other ↦ rw (workers_of-append k s.workers, other) (omega arith)
]

pub launched_holding :
    (ws : List Worker) (id : Bytes)
    → holding (ws ++ (record { id = id; phase = waiting } ∷ [])) ≡ holding ws
unfolding holding
launched_holding ws id = rw (holding-append ws) (omega arith)

pub launch-Inv :
    (s : Coordinator) (id : Bytes) (o : Option ProjectState)
    → Inv s
    → lookup id s.projects ≡ o
    → Inv (launch id o s)
launch-Inv s id none h e = h
launch-Inv s id (some p) h e =
    if_intro Inv (s.closed || p.running) _ _ (λ b. h)
      λ b.
        let idle : p.running ≡ false = ground arith in
        Wrote-Inv id (record p { timer = none; running = true }) h
          (record {
            projects = refl;
            keeps = Keeps-refl s.timers;
            later = omega arith;
            owns = λ t n. cc;
            queued = λ q. inl refl;
            workers = λ k.
                launched s id k
                  (h.one_worker id ∙ ap running_flag e ∙ ap (λ r. if r then 1 else 0) idle);
            permits = rw (launched_holding s.workers id) h.permits_held;
            capped = h.permits_capped;
            canceled = refl;
            closed = refl;
            fresh = h.fresh;
          })

pub start-Inv : (s : Coordinator) (id : Bytes) → Inv s → Inv (start id s)
unfolding start
start-Inv s id h = launch-Inv s id (lookup id s.projects) h refl

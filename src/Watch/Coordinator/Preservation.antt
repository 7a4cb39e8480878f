-- ===== src/Watch/Coordinator/Preservation.antt =====
-- Every step keeps the invariant.
use soft_ue_index.Base.{
  ℕ, suc, ◌-◌, ◌≤◌, ◌≡◌, true, false, not, ◌&&◌, Option, some, none, List, ◌∷◌, ◌++◌, if◌then◌else◌,
  arith, refl, if_intro, subst, ◌∙◌, Bool-cases, inl, inr,
}
use soft_ue_index.Base.Text.{Bytes, eqb, eqb_iff, eqb_refl}
use soft_ue_index.Base.Assoc.{lookup}
use soft_ue_index.Base.Int.{ℤ}
use soft_ue_index.Watch.Coordinator.{
  armed, fired, done, waiting, generating, finishing, Worker, ProjectState, Coordinator,
  new_coordinator, settle, finish, cancel, shut, Step, call_invalidate, fire, callback, acquire,
  give_up, generated, leave, call_cancel, call_shut, Steps, here, more,
}
use soft_ue_index.Watch.Coordinator.Workers.{
  holding, workers_of, holding-append, moved, held, removed,
}
use soft_ue_index.Watch.Coordinator.Timers.{Keeps-refl, Keeps-stop_all, Blank-stop_all}
use soft_ue_index.Watch.Coordinator.Invariant.{Inv, Owns, Owns-Keeps, Queued, Wrote-Inv, arm-Inv}
use soft_ue_index.Watch.Coordinator.Handlers.{
  new_coordinator-Inv, invalidate-Inv, put_at-Inv, start-Inv,
}

-- A worker leaves: `s` is the state in which it is still listed.
module _ (s : Coordinator) (before after : List Worker) (id : Bytes) (h : Inv s)
    (w : s.workers ≡ before ++ (record { id = id; phase = finishing } ∷ after)) where
  gone :
      (p : ProjectState)
      → lookup id s.projects ≡ some p
      → (k : Bytes)
      → workers_of k (before ++ after) ≡ (if eqb id k then 0 else workers_of k s.workers)
  gone p e k = elim (Bool-cases (eqb id k)) [
    | inl same ↦ rw same (
        ground (
          arith,
          removed s before after id finishing finishing w k,
          h.one_worker id,
          e,
          (eqb_iff id k).0 same,
        ))
    | inr other ↦ rw other (ground (arith, removed s before after id finishing finishing w k))
  ]

  gone_holding : holding (before ++ after) ≡ holding s.workers
  unfolding holding
  gone_holding = rw w (
      omega (
        arith,
        holding-append before (record { id = id; phase = finishing } ∷ after),
        holding-append before after,
      ))

  settle-Inv :
      (o : Option ProjectState)
      → lookup id s.projects ≡ o
      → Inv (settle id o (record s { workers = before ++ after }))
  settle-Inv none e = absurd (
      ground (
        arith,
        removed s before after id finishing finishing w id,
        h.one_worker id,
        e,
        eqb_refl id,
      ))
  settle-Inv (some p) e =
      if_intro Inv (p.pending && not s.canceled) _ _
        (λ b.
          arm-Inv s h id (record p { running = false; pending = false }) s.timers (before ++ after)
            (Keeps-refl s.timers) (λ t x. x) refl (inl refl) (gone p e) gone_holding)
        λ b.
          Wrote-Inv id (record p { running = false }) h
            (record {
              projects = refl;
              keeps = Keeps-refl s.timers;
              later = omega arith;
              owns = subst (λ o. Owns id o s.timers s.next_timer) e (h.owns id);
              queued = λ q. inr (ground arith);
              workers = gone p e;
              permits = rw gone_holding h.permits_held;
              capped = h.permits_capped;
              canceled = refl;
              closed = refl;
              fresh = h.fresh;
            })

  pub finish-Inv : Inv (finish id (record s { workers = before ++ after }))
  unfolding finish
  finish-Inv = settle-Inv (lookup id s.projects) refl

-- A worker moves on and the permits with it.
move-Inv :
    (s : Coordinator) (ws : List Worker) (n : ℕ)
    → Inv s
    → ((k : Bytes) → workers_of k ws ≡ workers_of k s.workers)
    → n ≡ holding ws
    → n ≤ s.max_concurrent
    → Inv (record s { workers = ws; permits = n })
move-Inv s ws n h e held le = record {
  one_worker = λ k. e k ∙ h.one_worker k;
  permits_held = held;
  permits_capped = le;
  owns = h.owns;
  queued = h.queued;
  closed_canceled = h.closed_canceled;
  fresh = h.fresh;
}

cancel-Inv : (s : Coordinator) → Inv s → Inv (cancel s)
unfolding cancel
cancel-Inv s h = record {
  one_worker = h.one_worker;
  permits_held = h.permits_held;
  permits_capped = h.permits_capped;
  owns = h.owns;
  queued = λ k. queued_when_canceled (lookup k s.projects);
  closed_canceled = λ c. refl;
  fresh = h.fresh;
}
  where
    queued_when_canceled : (o : Option ProjectState) → Queued o true
    queued_when_canceled none = tt
    queued_when_canceled (some p) = λ q. inr refl

shut-Inv : (s : Coordinator) → s.canceled ≡ true → Inv s → Inv (shut s)
unfolding shut
shut-Inv s c h = record {
  one_worker = h.one_worker;
  permits_held = h.permits_held;
  permits_capped = h.permits_capped;
  owns = λ k.
      Owns-Keeps k (lookup k s.projects) (Keeps-stop_all s.projects s.timers) (omega arith)
        (h.owns k);
  queued = h.queued;
  closed_canceled = λ q. c;
  fresh = λ t le. Blank-stop_all s.projects s.timers t (h.fresh t le);
}

-- Every step keeps the invariant.
pub Step-Inv : {s u : Coordinator} → Inv s → Step s u → Inv u
Step-Inv h (call_invalidate s id) = invalidate-Inv s id h
Step-Inv h (fire s t id e) = put_at-Inv s t id armed fired h e
Step-Inv h (callback s t id e) = start-Inv _ id (put_at-Inv s t id fired done h e)
Step-Inv h (acquire s before after id e free) =
    move-Inv s _ (suc s.permits) h (moved s before after id waiting generating e)
      (omega (arith, held s before after id waiting generating e, h.permits_held)) free
Step-Inv h (give_up s before after id e c) =
    move-Inv s _ s.permits h (moved s before after id waiting finishing e)
      (omega (arith, held s before after id waiting finishing e, h.permits_held)) h.permits_capped
Step-Inv h (generated s before after id e) =
    move-Inv s _ (s.permits - 1) h (moved s before after id generating finishing e)
      (omega (arith, held s before after id generating finishing e, h.permits_held))
      (omega (arith, h.permits_capped))
Step-Inv h (leave s before after id e) = finish-Inv s before after id h e
Step-Inv h (call_cancel s) = cancel-Inv s h
Step-Inv h (call_shut s c) = shut-Inv s c h

-- From a new coordinator, after any calls, timers and worker moves in any order: each project has
-- at most one worker, and exactly one when it is marked as running, and no more projects generate
-- at once than there are permits.
pub Steps-Inv : (max : ℤ) {u : Coordinator} → Steps (new_coordinator max) u → Inv u
Steps-Inv max r = from r (new_coordinator-Inv max)
  where
    from : {s u : Coordinator} → Steps s u → Inv s → Inv u
    from (here s) h = h
    from (more r st) h = Step-Inv (from r h) st

-- ===== src/Watch/Coordinator/Invariant.antt =====
-- What holds of a coordinator between two steps.
use soft_ue_index.Base.{
  ℕ, ◌<◌, ◌≤◌, ◌≡◌, Bool, true, false, Option, some, none, List, if◌then◌else◌, arith, refl, subst,
  ◌∙◌, Bool-cases, inl, inr, ◌⊎◌,
}
use soft_ue_index.Base.Text.{Bytes, eqb, eqb_iff}
use soft_ue_index.Base.Assoc.{lookup, insert, lookup-insert}
use soft_ue_index.Base.Store.{Store}
use soft_ue_index.Watch.Coordinator.{armed, Timer, Worker, ProjectState, Coordinator, arm, or_new}
use soft_ue_index.Watch.Coordinator.Workers.{holding, workers_of}
use soft_ue_index.Watch.Coordinator.Timers.{Keeps, Keeps-trans, Keeps-arm, Blank, fresh-arm}

abbrev pub running_flag : Option ProjectState → ℕ
running_flag none = 0
running_flag (some p) = if p.running then 1 else 0

-- The timer that a project's state names is that project's own.
abbrev pub Owns : Bytes → Option ProjectState → Store Timer → ℕ → Type 0
Owns id none ts next = Unit
Owns id (some p) ts next =
    (t : ℕ) → p.timer ≡ some t → (tm : Timer) × (t < next) × (ts t ≡ some tm) × (tm.owner ≡ id)

-- A change is set aside only while a worker runs, unless the coordinator is shutting down.
abbrev pub Queued : Option ProjectState → Bool → Type 0
Queued none canceled = Unit
Queued (some p) canceled = p.pending ≡ true → (p.running ≡ true) ⊎ (canceled ≡ true)

pub record Inv (s : Coordinator) : Type 0 where
  pub one_worker : (id : Bytes) → workers_of id s.workers ≡ running_flag (lookup id s.projects)
  pub permits_held : s.permits ≡ holding s.workers
  pub permits_capped : s.permits ≤ s.max_concurrent
  pub owns : (id : Bytes) → Owns id (lookup id s.projects) s.timers s.next_timer
  pub queued : (id : Bytes) → Queued (lookup id s.projects) s.canceled
  pub closed_canceled : s.closed ≡ true → s.canceled ≡ true
  pub fresh : (t : ℕ) → s.next_timer ≤ t → s.timers t ≡ none

pub Owns-Keeps :
    (id : Bytes) (o : Option ProjectState) {ts us : Store Timer} {n m : ℕ}
    → Keeps ts us
    → n ≤ m
    → Owns id o ts n
    → Owns id o us m
Owns-Keeps id none k le h = tt
Owns-Keeps id (some p) k le h = λ t e.
    let (tm, below, at, own) = h t e in
    let (um, at', own') = k t tm at in (um, omega arith, at', own' ∙ own)

-- What is left to show after a handler wrote the state of one project.
pub record Wrote (s u : Coordinator) (id : Bytes) (p : ProjectState) : Type 0 where
  pub projects : u.projects ≡ insert id p s.projects
  pub keeps : Keeps s.timers u.timers
  pub later : s.next_timer ≤ u.next_timer
  pub owns : Owns id (some p) u.timers u.next_timer
  pub queued : Queued (some p) u.canceled
  pub workers :
      (k : Bytes)
      → workers_of k u.workers
        ≡ (if eqb id k then running_flag (some p) else workers_of k s.workers)
  pub permits : u.permits ≡ holding u.workers
  pub capped : u.permits ≤ u.max_concurrent
  pub canceled : u.canceled ≡ s.canceled
  pub closed : u.closed ≡ s.closed
  pub fresh : (t : ℕ) → u.next_timer ≤ t → u.timers t ≡ none

pub Wrote-Inv : {s u : Coordinator} (id : Bytes) (p : ProjectState) → Inv s → Wrote s u id p → Inv u
Wrote-Inv {s} {u} id p h w = record {
  one_worker = λ k. rw (w.projects, lookup-insert id k p s.projects, w.workers k) (worker k);
  permits_held = w.permits;
  permits_capped = w.capped;
  owns = λ k. rw (w.projects, lookup-insert id k p s.projects) (own k);
  queued = λ k. rw (w.projects, lookup-insert id k p s.projects) (set_aside k);
  closed_canceled = ground (arith, h.closed_canceled, w.canceled, w.closed);
  fresh = w.fresh;
}
  where
    worker :
        (k : Bytes)
        → (if eqb id k then running_flag (some p) else workers_of k s.workers)
          ≡ running_flag (if eqb id k then some p else lookup k s.projects)
    worker k = elim (Bool-cases (eqb id k)) [ inl e ↦ rw e | inr e ↦ rw e (h.one_worker k) ]

    own :
        (k : Bytes)
        → Owns k (if eqb id k then some p else lookup k s.projects) u.timers u.next_timer
    own k = elim (Bool-cases (eqb id k)) [
      | inl e ↦
          rw e (subst (λ j. Owns j (some p) u.timers u.next_timer) ((eqb_iff id k).0 e) w.owns)
      | inr e ↦ rw e (Owns-Keeps k (lookup k s.projects) w.keeps w.later (h.owns k))
    ]

    set_aside : (k : Bytes) → Queued (if eqb id k then some p else lookup k s.projects) u.canceled
    set_aside k = elim (Bool-cases (eqb id k)) [
      | inl e ↦ rw e w.queued
      | inr e ↦ rw (e, w.canceled) (h.queued k)
    ]

-- The facts about one project's state that every handler starts from.
pub record At (s : Coordinator) (id : Bytes) (p : ProjectState) : Type 0 where
  pub own : Owns id (some p) s.timers s.next_timer
  pub set_aside : Queued (some p) s.canceled
  pub one : workers_of id s.workers ≡ running_flag (some p)

pub At-or_new :
    (s : Coordinator) (id : Bytes) (o : Option ProjectState)
    → Inv s
    → lookup id s.projects ≡ o
    → At s id (or_new o)
At-or_new s id none h e = record {
  own = λ t none_eq. cc;
  set_aside = λ never. cc;
  one = rw (h.one_worker id, e);
}
At-or_new s id (some p) h e = record {
  own = subst (λ o. Owns id o s.timers s.next_timer) e (h.owns id);
  set_aside = subst (λ o. Queued o s.canceled) e (h.queued id);
  one = rw (h.one_worker id, e);
}

-- `arm` after the timers were changed to `ts` and the workers to `ws`, for a project whose worker
-- count is then 0.
module _ (s : Coordinator) (h : Inv s) (id : Bytes) (p : ProjectState) (ts : Store Timer)
    (ws : List Worker) (keeps : Keeps s.timers ts) (blank : Blank s.timers ts)
    (idle : p.running ≡ false) (clear : p.pending ≡ false ⊎ (s.canceled ≡ true))
    (workers : (k : Bytes) → workers_of k ws ≡ (if eqb id k then 0 else workers_of k s.workers))
    (permits : holding ws ≡ holding s.workers) where
  pub arm-Inv : Inv (arm id p (record s { timers = ts; workers = ws }))
  unfolding arm
  arm-Inv =
      Wrote-Inv id (record p { timer = some s.next_timer }) h
        (record {
          projects = refl;
          keeps = Keeps-trans keeps (
              Keeps-arm ts s.next_timer (record { owner = id; phase = armed })
                (blank s.next_timer (h.fresh s.next_timer (omega arith))));
          later = omega arith;
          owns = λ t e. (record { owner = id; phase = armed }, ground arith, ground arith, refl);
          queued = λ q. ground arith;
          workers = λ k. rw (workers k, idle);
          permits = rw permits h.permits_held;
          capped = h.permits_capped;
          canceled = refl;
          closed = refl;
          fresh =
              fresh-arm ts s.next_timer (record { owner = id; phase = armed })
                (λ t le. blank t (h.fresh t le));
        })

-- ===== src/Watch/Coordinator/Due.antt =====
-- When a generation is due, and what the handlers of one project leave alone of another.
use soft_ue_index.Base.{
  ℕ, ◌<◌, ◌≡◌, true, false, not, ◌&&◌, ◌||◌, Option, some, none, List, if◌then◌else◌, arith, refl,
  ◌==◌, ==_iff, Bool-cases, inl, inr, if_intro, ap, subst, sym, ◌∙◌,
}
use soft_ue_index.Base.Text.{Bytes, is_empty, eqb, eqb_iff, eqb_refl}
use soft_ue_index.Base.Assoc.{lookup, insert, lookup-insert, lookup-insert_self}
use soft_ue_index.Base.Store.{Store, put_at}
use soft_ue_index.Watch.Coordinator.{
  TimerPhase, armed, fired, Timer, Worker, ProjectState, Coordinator, stop_timer, arm, or_new,
  touch, invalidate, launch, settle,
}
use soft_ue_index.Watch.Coordinator.Workers.{workers_of, workers_of-append}
use soft_ue_index.Watch.Coordinator.Invariant.{Inv, Owns, running_flag}

abbrev pub IsLive : TimerPhase → Type 0
IsLive armed = Unit
IsLive fired = Unit
IsLive _ = ⊥

-- A generation is due: the project's own timer will start one, or the running worker's end will.
pub data Owed (id : Bytes) (s : Coordinator) : Type 0 where
  scheduled :
      (p : ProjectState) (t : ℕ) (tm : Timer)
      → lookup id s.projects ≡ some p
      → p.running ≡ false
      → p.timer ≡ some t
      → s.timers t ≡ some tm
      → IsLive tm.phase
      → Owed id s
  set_aside :
      (p : ProjectState)
      → lookup id s.projects ≡ some p
      → p.running ≡ true
      → p.pending ≡ true
      → Owed id s

-- The step started the one worker that the project has now.
pub record Launched (id : Bytes) (s u : Coordinator) : Type 0 where
  pub idle : workers_of id s.workers ≡ 0
  pub busy : workers_of id u.workers ≡ 1

-- A step leaves the project's state and its live timers alone.
pub record Frame (id : Bytes) (s u : Coordinator) : Type 0 where
  pub projects : lookup id u.projects ≡ lookup id s.projects
  pub timers :
      (t : ℕ) (tm : Timer)
      → s.timers t ≡ some tm
      → tm.owner ≡ id
      → IsLive tm.phase
      → (um : Timer) × (u.timers t ≡ some um) × IsLive um.phase

pub same_owner :
    {o : Option Timer} {tm um : Timer} {id : Bytes}
    → o ≡ some tm
    → o ≡ some um
    → um.owner ≡ id
    → tm.owner ≡ id
same_owner a b c = ground arith

pub own_timer :
    {s : Coordinator} {id : Bytes} {p : ProjectState} {t : ℕ} {tm : Timer}
    → Inv s
    → lookup id s.projects ≡ some p
    → p.timer ≡ some t
    → s.timers t ≡ some tm
    → (tm.owner ≡ id) × (t < s.next_timer)
own_timer {s} {id} {p} {t} {tm} h e pt at =
    let own : Owns id (some p) s.timers s.next_timer =
      subst (λ o. Owns id o s.timers s.next_timer) e (h.owns id) in
    let (um, below, at', named) = own t pt in (same_owner at at' named, below)

pub Frame-Owed : {id : Bytes} {s u : Coordinator} → Inv s → Frame id s u → Owed id s → Owed id u
Frame-Owed {id} {s} {u} h f (scheduled p t tm e idle pt at live) =
    let (um, at', live') = f.timers t tm at (own_timer h e pt at).0 live in
    scheduled p t um (f.projects ∙ e) idle pt at' live'
Frame-Owed {id} {s} {u} h f (set_aside p e busy q) = set_aside p (f.projects ∙ e) busy q

pub same_timers :
    (id : Bytes) (s u : Coordinator)
    → u.timers ≡ s.timers
    → lookup id u.projects ≡ lookup id s.projects
    → Frame id s u
same_timers id s u e l = record {
  projects = l;
  timers = λ t tm at own live. (tm, ap (λ ts. ts t) e ∙ at, live);
}

pub arm-scheduled :
    (s : Coordinator) (id : Bytes) (p : ProjectState) → p.running ≡ false → Owed id (arm id p s)
unfolding arm
arm-scheduled s id p idle =
    scheduled (record p { timer = some s.next_timer }) s.next_timer
      (record { owner = id; phase = armed }) (lookup-insert_self id _ s.projects) idle refl
      (ground arith) tt

pub touch-Owed : (s : Coordinator) (id : Bytes) (p : ProjectState) → Owed id (touch id p s)
unfolding touch
touch-Owed s id p =
    if_intro (Owed id) p.running _ _
      (λ busy.
        set_aside (record p { pending = true }) (lookup-insert_self id _ s.projects) busy refl)
      λ idle. arm-scheduled _ id p idle

-- After Invalidate, while the coordinator is open, a generation is due.
pub invalidate-Owed :
    (s : Coordinator) (id : Bytes)
    → is_empty id ≡ false
    → s.closed ≡ false
    → Owed id (invalidate id s)
unfolding invalidate
invalidate-Owed s id e c = rw e (
    if_intro (Owed id) s.closed _ _ (λ c'. cc)
      λ c'. touch-Owed s id (or_new (lookup id s.projects)))

-- Handlers of another project.
module _ (s : Coordinator) (h : Inv s) (id j : Bytes) (other : eqb j id ≡ false) where
  pub elsewhere : (p : ProjectState) → lookup id (insert j p s.projects) ≡ lookup id s.projects
  elsewhere p = rw (lookup-insert j id p s.projects, other)

  pub arm-Frame :
      (p : ProjectState) (ts : Store Timer) (ws : List Worker) (n : ℕ)
      → ((t : ℕ) (tm : Timer) → s.timers t ≡ some tm → tm.owner ≡ id → ts t ≡ some tm)
      → Frame id s (arm j p (record s { timers = ts; workers = ws; permits = n }))
  unfolding arm
  arm-Frame p ts ws n keep = record {
    projects = elsewhere (record p { timer = some s.next_timer });
    timers = λ t tm at own live. (tm, ground (arith, keep t tm at own, h.fresh t), live);
  }

  pub stop_other :
      (o : Option ℕ)
      → Owns j (some (record { timer = o; running = false; pending = false })) s.timers s.next_timer
      → (t : ℕ) (tm : Timer) → s.timers t ≡ some tm
      → tm.owner ≡ id
      → stop_timer o s.timers t ≡ some tm
  unfolding stop_timer
  stop_other none own t tm at named = at
  stop_other (some k) own t tm at named =
      let (um, below, at', named') = own k refl in
      rw at' (elim (Bool-cases (k == t)) [
        | inl same ↦ absurd (
            ground (
              arith,
              same_owner (sym (ap s.timers ((==_iff k t).0 same)) ∙ at') at named,
              eqb_iff j id,
              named',
            ))
        | inr e ↦ rw e at
      ])

  pub touch-Frame :
      (p : ProjectState) → Owns j (some p) s.timers s.next_timer → Frame id s (touch j p s)
  unfolding touch
  touch-Frame p own =
      if_intro (Frame id s) p.running _ _
        (λ busy. same_timers id s _ refl (elsewhere (record p { pending = true })))
        λ idle.
          arm-Frame p (stop_timer p.timer s.timers) s.workers s.permits (stop_other p.timer own)

  pub settle-Frame :
      (ws : List Worker) (o : Option ProjectState)
      → Frame id s (settle j o (record s { workers = ws }))
  settle-Frame ws none = same_timers id s _ refl refl
  settle-Frame ws (some p) =
      if_intro (Frame id s) (p.pending && not s.canceled) _ _
        (λ b.
          arm-Frame (record p { running = false; pending = false }) s.timers ws s.permits
            (λ t tm at own. at))
        λ b. same_timers id s _ refl (elsewhere (record p { running = false }))

  pub launch-Frame : (o : Option ProjectState) → Frame id s (launch j o s)
  launch-Frame none = same_timers id s _ refl refl
  launch-Frame (some p) =
      if_intro (Frame id s) (s.closed || p.running) _ _ (λ b. same_timers id s _ refl refl)
        λ b. same_timers id s _ refl (elsewhere (record p { timer = none; running = true }))

-- The callback of a timer of the project itself: it starts the worker, or one runs already.
pub launch_idle :
    (s : Coordinator) (id : Bytes) (p : ProjectState)
    → Inv s
    → s.closed ≡ false
    → lookup id s.projects ≡ some p
    → p.running ≡ false
    → Launched id s (launch id (some p) s)
unfolding workers_of
launch_idle s id p h open_now e idle =
    let zero_now : workers_of id s.workers ≡ 0 =
      h.one_worker id ∙ ap running_flag e ∙ ap (λ r. if r then 1 else 0) idle in
    rw (idle, open_now)
      (record {
        idle = zero_now;
        busy = rw (workers_of-append id s.workers, eqb_refl id, zero_now) (omega arith);
      })

pub Frame-then :
    {id : Bytes} {s t u : Coordinator}
    → Inv s
    → Inv t
    → Frame id s t
    → Frame id t u
    → Owed id s
    → Owed id u
Frame-then h k f g w = Frame-Owed k g (Frame-Owed h f w)

-- A timer of another project moves on.
pub put_at-Frame :
    (s : Coordinator) (t : ℕ) (id j : Bytes) (p q : TimerPhase)
    → s.timers t ≡ some (record { owner = j; phase = p })
    → (j ≡ id → IsLive q)
    → Frame id s (record s { timers = put_at s.timers t (record { owner = j; phase = q }) })
put_at-Frame s t id j p q e alive = record {
  projects = refl;
  timers = λ k tm at own live. elim (Bool-cases (t == k)) [
    | inl same ↦ (
      record { owner = j; phase = q },
      ground arith,
      alive (same_owner e (ap s.timers ((==_iff t k).0 same) ∙ at) own),
    )
    | inr other ↦ (tm, ground arith, live)
  ];
}

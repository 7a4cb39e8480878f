-- ===== src/Watch/Coordinator/Shutdown.antt =====
-- Close: no worker starts after it, and the workers that are left can all end.
use soft_ue_index.Base.{
  suc, ◌≤◌, ◌≡◌, true, List, [], ◌∷◌, ◌++◌, arith, refl, length, length-append, ◌∙◌,
}
use soft_ue_index.Base.Text.{Bytes}
use soft_ue_index.Base.Store.{put_at}
use soft_ue_index.Watch.Coordinator.{
  done, WorkerPhase, waiting, generating, finishing, Worker, Coordinator, arm, invalidate, start,
  finish, cancel, shut, Step, call_invalidate, fire, callback, acquire, give_up, generated, leave,
  call_cancel, call_shut, Steps, here, more,
}

workers-finish : (s : Coordinator) (id : Bytes) → (finish id s).workers ≡ s.workers
unfolding finish arm
workers-finish s id = ground arith

canceled-finish : (s : Coordinator) (id : Bytes) → (finish id s).canceled ≡ s.canceled
unfolding finish arm
canceled-finish s id = ground arith

Steps-trans : {s t u : Coordinator} → Steps s t → Steps t u → Steps s u
Steps-trans r (here t) = r
Steps-trans r (more q st) = more (Steps-trans r q) st

to_finishing :
    (s : Coordinator) (id : Bytes) (p : WorkerPhase) (ws : List Worker)
    → s.workers ≡ record { id = id; phase = p } ∷ ws
    → s.canceled ≡ true
    → (t : Coordinator) × Steps s t
      × (t.workers ≡ record { id = id; phase = finishing } ∷ ws)
      × (t.canceled ≡ true)
to_finishing s id waiting ws e c = (_, more (here s) (give_up s [] ws id e c), refl, c)
to_finishing s id generating ws e c = (_, more (here s) (generated s [] ws id e), refl, c)
to_finishing s id finishing ws e c = (s, here s, e, c)

-- Once the coordinator is cancelled, its workers can all end, one after another, whatever they
-- were doing: the wait at the end of Close can be over.
pub cancelled_drains :
    (ws : List Worker) (s : Coordinator)
    → s.workers ≡ ws
    → s.canceled ≡ true
    → (u : Coordinator) × Steps s u × (u.workers ≡ [])
cancelled_drains [] s e c = (s, here s, e)
cancelled_drains (w ∷ ws) s e c =
    let (t, first, at, c') = to_finishing s w.id w.phase ws e c in
    let t' : Coordinator = finish w.id (record t { workers = ws }) in
    let (u, rest, over) =
      cancelled_drains ws t' (workers-finish _ w.id) (canceled-finish _ w.id ∙ c') in
    (u, Steps-trans (more first (leave t [] ws w.id at)) rest, over)

closed-start : (s : Coordinator) (id : Bytes) → s.closed ≡ true → start id s ≡ s
unfolding start
closed-start s id h = ground arith

closed-invalidate : (s : Coordinator) (id : Bytes) → s.closed ≡ true → invalidate id s ≡ s
unfolding invalidate
closed-invalidate s id h = ground arith

closed-finish : (s : Coordinator) (id : Bytes) → (finish id s).closed ≡ s.closed
unfolding finish arm
closed-finish s id = ground arith

replaced_length :
    (s : Coordinator) (before after : List Worker) (v w : Worker)
    → s.workers ≡ before ++ (v ∷ after)
    → length (before ++ (w ∷ after)) ≡ length s.workers
replaced_length s before after v w e =
    rw e (rw (length-append before (w ∷ after), length-append before (v ∷ after)))

removed_length :
    (s : Coordinator) (before after : List Worker) (v : Worker)
    → s.workers ≡ before ++ (v ∷ after)
    → suc (length (before ++ after)) ≡ length s.workers
removed_length s before after v e =
    rw e (omega (arith, length-append before (v ∷ after), length-append before after))

-- Once Close has marked the coordinator as closed it stays closed, and no step, not even a timer
-- that fires late, adds a worker.
pub Step-closed :
    {s u : Coordinator}
    → Step s u
    → s.closed ≡ true
    → (u.closed ≡ true) × (length u.workers ≤ length s.workers)
unfolding cancel shut
Step-closed (call_invalidate s id) h = rw (closed-invalidate s id h) (h, omega arith)
Step-closed (fire s t id e) h = (h, omega arith)
Step-closed (callback s t id e) h =
    rw
      (closed-start (record s { timers = put_at s.timers t (record { owner = id; phase = done }) })
        id h)
      (h, omega arith)
Step-closed (acquire s before after id e free) h =
    (h, omega (arith, replaced_length s before after _ (record { id = id; phase = generating }) e))
Step-closed (give_up s before after id e c) h =
    (h, omega (arith, replaced_length s before after _ (record { id = id; phase = finishing }) e))
Step-closed (generated s before after id e) h =
    (h, omega (arith, replaced_length s before after _ (record { id = id; phase = finishing }) e))
Step-closed (leave s before after id e) h = (
  closed-finish _ id ∙ h,
  rw (workers-finish (record s { workers = before ++ after }) id)
      (omega (arith, removed_length s before after _ e)),
)
Step-closed (call_cancel s) h = (h, omega arith)
Step-closed (call_shut s c) h = (refl, omega arith)

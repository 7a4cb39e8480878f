-- ===== src/Watch/Coordinator/Pending.antt =====
-- No change is lost: what Invalidate recorded is still due until a worker starts on it.
use soft_ue_index.Base.{
  ℕ, ◌≡◌, true, false, not, ◌&&◌, ◌||◌, some, List, ◌∷◌, ◌++◌, arith, refl, Bool-cases, inl, inr,
  ◌⊎◌, if_intro, subst, sym, ◌∙◌,
}
use soft_ue_index.Base.Text.{Bytes, is_empty, eqb, eqb_iff}
use soft_ue_index.Base.Assoc.{lookup}
use soft_ue_index.Base.Store.{put_at}
use soft_ue_index.Base.Int.{ℤ}
use soft_ue_index.Watch.Coordinator.{
  armed, fired, done, finishing, Worker, Coordinator, new_coordinator, arm, or_new, touch,
  invalidate, launch, start, settle, finish, cancel, shut, Step, call_invalidate, fire, callback,
  acquire, give_up, generated, leave, call_cancel, call_shut, Steps, here, more,
}
use soft_ue_index.Watch.Coordinator.Workers.{removed}
use soft_ue_index.Watch.Coordinator.Invariant.{Inv, At-or_new}
use soft_ue_index.Watch.Coordinator.Handlers.{invalidate-Inv, put_at-Inv}
use soft_ue_index.Watch.Coordinator.Preservation.{Step-Inv, Steps-Inv}
use soft_ue_index.Watch.Coordinator.Due.{
  Owed, Launched, Frame-Owed, same_timers, arm-scheduled, touch-Owed, invalidate-Owed, touch-Frame,
  settle-Frame, launch-Frame, launch_idle, Frame-then, put_at-Frame, scheduled, set_aside,
}

canceled-invalidate : (s : Coordinator) (id : Bytes) → (invalidate id s).canceled ≡ s.canceled
unfolding invalidate touch arm
canceled-invalidate s id = ground arith

canceled-start : (s : Coordinator) (id : Bytes) → (start id s).canceled ≡ s.canceled
unfolding start
canceled-start s id = ground arith

canceled-finish : (s : Coordinator) (id : Bytes) → (finish id s).canceled ≡ s.canceled
unfolding finish arm
canceled-finish s id = ground arith

-- An open coordinator that is not cancelled is not closed.
still_open : {s : Coordinator} → Inv s → s.canceled ≡ false → s.closed ≡ false
still_open {s} h c = elim (Bool-cases s.closed) [
  | inl e ↦ ground (arith, h.closed_canceled e)
  | inr e ↦ e
]

module _ {s : Coordinator} (h : Inv s) (id : Bytes) (w : Owed id s) (c : s.canceled ≡ false) where
  Owed-invalidate : (j : Bytes) → Owed id (invalidate j s)
  unfolding invalidate
  Owed-invalidate j =
      if_intro (Owed id) (is_empty j) _ _ (λ e. w)
        λ e.
          if_intro (Owed id) s.closed _ _ (λ x. w)
            λ x. elim (Bool-cases (eqb j id)) [
              | inl same ↦
                  rw (← (eqb_iff j id).0 same) (touch-Owed s j (or_new (lookup j s.projects)))
              | inr other ↦
                  Frame-Owed h
                    (touch-Frame s h id j other (or_new (lookup j s.projects))
                      (At-or_new s j (lookup j s.projects) h refl).own)
                    w
            ]

  callback_self :
      (t : ℕ) (j : Bytes)
      → (let s' = record s { timers = put_at s.timers t (record { owner = j; phase = done }) } in
          Inv s' → Owed id s → Owed id (start id s') ⊎ Launched id s (start id s'))
  unfolding start
  callback_self t j h' (scheduled p k tm e idle pt at live) =
      let s' = record s { timers = put_at s.timers t (record { owner = j; phase = done }) } in
      let l : Launched id s' (launch id (some p) s') =
        launch_idle s' id p h' (still_open h c) e idle in
      inr (rw e (record { idle = l.idle; busy = l.busy }))
  callback_self t j h' (set_aside p e busy q) = inl (
      rw e (
        if_intro (Owed id) (s.closed || p.running) _ _ (λ b. set_aside p e busy q)
          λ b. absurd (ground arith)))

  Owed-callback :
      (t : ℕ) (j : Bytes)
      → s.timers t ≡ some (record { owner = j; phase = fired })
      → (let s' = record s { timers = put_at s.timers t (record { owner = j; phase = done }) } in
          Owed id (start j s') ⊎ Launched id s (start j s'))
  unfolding start
  Owed-callback t j e =
      let s' = record s { timers = put_at s.timers t (record { owner = j; phase = done }) } in
      let h' : Inv s' = put_at-Inv s t j fired done h e in
      elim (Bool-cases (eqb j id)) [
        | inl same ↦
            subst
              (λ k.
                Owed id (launch k (lookup k s'.projects) s')
                ⊎ Launched id s (launch k (lookup k s'.projects) s'))
              (sym ((eqb_iff j id).0 same)) (callback_self t j h' w)
        | inr other ↦ inl (
            Frame-then h h'
              (put_at-Frame s t id j fired done e (λ same. ground (arith, eqb_iff j id)))
              (launch-Frame s' h' id j other (lookup j s'.projects)) w)
      ]

  leave_self :
      (before after : List Worker) (j : Bytes)
      → eqb j id ≡ true
      → s.workers ≡ before ++ (record { id = j; phase = finishing } ∷ after)
      → Owed id s
      → Owed id (settle id (lookup id s.projects) (record s { workers = before ++ after }))
  leave_self before after j same e (scheduled p t tm l idle pt at live) =
      absurd (ground (arith, removed s before after j finishing finishing e id, h.one_worker id, l))
  leave_self before after j same e (set_aside p l busy q) = rw l (
      if_intro (Owed id) (p.pending && not s.canceled) _ _
        (λ b. arm-scheduled _ id (record p { running = false; pending = false }) refl)
        λ b. absurd (ground arith))

  Owed-leave :
      (before after : List Worker) (j : Bytes)
      → s.workers ≡ before ++ (record { id = j; phase = finishing } ∷ after)
      → Owed id (finish j (record s { workers = before ++ after }))
  unfolding finish
  Owed-leave before after j e = elim (Bool-cases (eqb j id)) [
    | inl same ↦
        subst
          (λ k. Owed id (settle k (lookup k s.projects) (record s { workers = before ++ after })))
          (sym ((eqb_iff j id).0 same)) (leave_self before after j same e w)
    | inr other ↦
        Frame-Owed h (settle-Frame s h id j other (before ++ after) (lookup j s.projects)) w
  ]

-- While nothing cancels the coordinator, a step leaves a due generation due, or starts it.
pub Step-Owed :
    {s u : Coordinator} (id : Bytes)
    → Inv s
    → Step s u
    → u.canceled ≡ false
    → Owed id s
    → Owed id u ⊎ Launched id s u
unfolding start cancel shut
Step-Owed id h (call_invalidate s j) c w =
    inl (Owed-invalidate h id w (sym (canceled-invalidate s j) ∙ c) j)
Step-Owed id h (fire s t j e) c w =
    inl (Frame-Owed h (put_at-Frame s t id j armed fired e (λ x. tt)) w)
Step-Owed id h (callback s t j e) c w = Owed-callback h id w (sym (canceled-start _ j) ∙ c) t j e
Step-Owed id h (acquire s before after j e free) c w =
    inl (Frame-Owed h (same_timers id s _ refl refl) w)
Step-Owed id h (give_up s before after j e x) c w =
    inl (Frame-Owed h (same_timers id s _ refl refl) w)
Step-Owed id h (generated s before after j e) c w =
    inl (Frame-Owed h (same_timers id s _ refl refl) w)
Step-Owed id h (leave s before after j e) c w =
    inl (Owed-leave h id w (sym (canceled-finish _ j) ∙ c) before after j e)
Step-Owed id h (call_cancel s) c w = cc
Step-Owed id h (call_shut s x) c w = cc

-- Somewhere in the run a worker was started on the project.
pub record Served (id : Bytes) (s u : Coordinator) : Type 0 where
  pub before : Coordinator
  pub after : Coordinator
  pub up_to : Steps s before
  pub step : Step before after
  pub launched : Launched id before after
  pub onward : Steps after u

Step-canceled : {s u : Coordinator} → Step s u → u.canceled ≡ false → s.canceled ≡ false
unfolding cancel shut
Step-canceled (call_invalidate s id) c = sym (canceled-invalidate s id) ∙ c
Step-canceled (fire s t id e) c = c
Step-canceled (callback s t id e) c = sym (canceled-start _ id) ∙ c
Step-canceled (acquire s before after id e free) c = c
Step-canceled (give_up s before after id e x) c = c
Step-canceled (generated s before after id e) c = c
Step-canceled (leave s before after id e) c = sym (canceled-finish _ id) ∙ c
Step-canceled (call_cancel s) c = cc
Step-canceled (call_shut s x) c = c

Steps-keep-Inv : {s u : Coordinator} → Inv s → Steps s u → Inv u
Steps-keep-Inv h (here s) = h
Steps-keep-Inv h (more r st) = Step-Inv (Steps-keep-Inv h r) st

pub Steps-Owed :
    {s u : Coordinator} (id : Bytes)
    → Inv s
    → Steps s u
    → u.canceled ≡ false
    → Owed id s
    → Owed id u ⊎ Served id s u
Steps-Owed id h (here s) c w = inl w
Steps-Owed id h (more {t = t} {u = u} r st) c w = elim (Steps-Owed id h r (Step-canceled st c) w) [
  | inl owed ↦ elim (Step-Owed id (Steps-keep-Inv h r) st c owed) [
    | inl still ↦ inl still
    | inr now ↦
        inr
          (record { before = t; after = u; up_to = r; step = st; launched = now; onward = here u })
  ]
  | inr done_before ↦ inr (record {
    before = done_before.before;
    after = done_before.after;
    up_to = done_before.up_to;
    step = done_before.step;
    launched = done_before.launched;
    onward = more done_before.onward st;
  })
]

-- A change that Invalidate was told of, in any state that a new coordinator reaches and while it is
-- open, is not lost: after any further steps, unless something cancelled the coordinator, a
-- generation is still due (a timer armed or fired, or set aside behind the running worker), or a
-- worker was started on the project after the call.
pub invalidate_not_lost :
    (max : ℤ) (id : Bytes) {s u : Coordinator}
    → Steps (new_coordinator max) s
    → is_empty id ≡ false
    → s.closed ≡ false
    → Steps (invalidate id s) u
    → u.canceled ≡ false
    → Owed id u ⊎ Served id (invalidate id s) u
invalidate_not_lost max id {s} r named open_now run c =
    Steps-Owed id (invalidate-Inv s id (Steps-Inv max r)) run c
      (invalidate-Owed s id named open_now)

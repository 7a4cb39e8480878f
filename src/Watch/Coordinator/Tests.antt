-- ===== src/Watch/Coordinator/Tests.antt =====
-- Runs of a coordinator.
use soft_ue_index.Base.{◌≡◌, refl, [], ◌∷◌, true, ◌⊎◌, ◌≤◌, length, some}
use soft_ue_index.Base.Text.{str, eqb}
use soft_ue_index.Base.Int.{pos, negsuc}
use soft_ue_index.Base.Assoc.{lookup, insert}
use soft_ue_index.Watch.Coordinator.{
  armed, stopped, waiting, Coordinator, new_coordinator, invalidate, start, arm, touch, stop_timer,
  cancel, shut, call_invalidate, Steps, here, more,
}
use soft_ue_index.Watch.Coordinator.Invariant.{Inv}
use soft_ue_index.Watch.Coordinator.Preservation.{Steps-Inv}
use soft_ue_index.Watch.Coordinator.Pending.{Served, invalidate_not_lost}
use soft_ue_index.Watch.Coordinator.Due.{Owed}
use soft_ue_index.Watch.Coordinator.Shutdown.{cancelled_drains, Step-closed}

abbrev fresh : Coordinator
fresh = new_coordinator (pos 2)

abbrev asked : Coordinator
asked = invalidate (str "game") fresh

once : Steps fresh asked
once = more (here fresh) (call_invalidate fresh (str "game"))

at_least_one : (new_coordinator (negsuc 3)).max_concurrent ≡ 1
unfolding new_coordinator
at_least_one = refl

-- A second change before the timer fires stops the first timer and arms another.
debounced :
    let s = invalidate (str "game") asked in
    (s.timers 0 ≡ some (record { owner = str "game"; phase = stopped }))
    × (s.timers 1 ≡ some (record { owner = str "game"; phase = armed }))
unfolding invalidate touch arm stop_timer new_coordinator lookup insert eqb str
debounced = (refl, refl)

one_running : (start (str "game") asked).workers ≡ record { id = str "game"; phase = waiting } ∷ []
unfolding start invalidate touch arm stop_timer new_coordinator lookup insert eqb str
one_running = refl

Steps-Inv_example : Inv asked
Steps-Inv_example = Steps-Inv (pos 2) once

invalidate_not_lost_example : Owed (str "game") asked ⊎ Served (str "game") asked asked
unfolding new_coordinator str invalidate touch arm eqb lookup insert
invalidate_not_lost_example =
    invalidate_not_lost (pos 2) (str "game") (here fresh) refl refl (here asked) refl

abbrev stopping : Coordinator
stopping = cancel (start (str "game") asked)

cancelled_drains_example : (u : Coordinator) × Steps stopping u × (u.workers ≡ [])
unfolding cancel start invalidate touch arm stop_timer new_coordinator lookup insert eqb str
cancelled_drains_example =
    cancelled_drains (record { id = str "game"; phase = waiting } ∷ []) stopping refl refl

Step-closed_example :
    let s = shut stopping in
    ((invalidate (str "tool") s).closed ≡ true)
    × (length (invalidate (str "tool") s).workers ≤ length s.workers)
unfolding shut
Step-closed_example = Step-closed (call_invalidate (shut stopping) (str "tool")) refl

-- ===== src/Watch/Coordinator/Timers.antt =====
-- What stopping and arming timers leaves alone.
use soft_ue_index.Base.{
  ℕ, suc, ◌≤◌, ◌≡◌, Option, some, none, [], ◌∷◌, arith, refl, ◌∙◌, ◌==◌, Bool-cases, inl, inr,
}
use soft_ue_index.Base.Assoc.{Assoc}
use soft_ue_index.Base.Store.{Store, put_at}
use soft_ue_index.Watch.Coordinator.{Timer, ProjectState, stop_phase, stop_at, stop_timer, stop_all}

-- Timers may change as long as each keeps its owner.
abbrev pub Keeps : Store Timer → Store Timer → Type 0
Keeps ts us =
    (t : ℕ) (tm : Timer) → ts t ≡ some tm → (um : Timer) × (us t ≡ some um) × (um.owner ≡ tm.owner)

pub Keeps-put :
    (ts : Store Timer) (t : ℕ) (tm um : Timer)
    → ts t ≡ some tm
    → um.owner ≡ tm.owner
    → Keeps ts (put_at ts t um)
Keeps-put ts t tm um h e k km hk = elim (Bool-cases (t == k)) [
  | inl same ↦ (um, ground arith, ground arith)
  | inr other ↦ (km, ground arith, refl)
]

pub Keeps-refl : (ts : Store Timer) → Keeps ts ts
Keeps-refl ts t tm e = (tm, e, refl)

pub Keeps-stop_at :
    (ts : Store Timer) (t : ℕ) (o : Option Timer) → ts t ≡ o → Keeps ts (stop_at t o ts)
Keeps-stop_at ts t none e = Keeps-refl ts
Keeps-stop_at ts t (some tm) e =
    Keeps-put ts t tm (record tm { phase = stop_phase tm.phase }) e refl

pub Keeps-stop_timer : (ts : Store Timer) (o : Option ℕ) → Keeps ts (stop_timer o ts)
unfolding stop_timer
Keeps-stop_timer ts none = Keeps-refl ts
Keeps-stop_timer ts (some t) = Keeps-stop_at ts t (ts t) refl

pub Keeps-trans : {ts us vs : Store Timer} → Keeps ts us → Keeps us vs → Keeps ts vs
Keeps-trans h k t tm e =
    let (um, at, own) = h t tm e in let (vm, at', own') = k t um at in (vm, at', own' ∙ own)

pub Keeps-stop_all : (ps : Assoc ProjectState) (ts : Store Timer) → Keeps ts (stop_all ps ts)
unfolding stop_all
Keeps-stop_all [] ts = Keeps-refl ts
Keeps-stop_all ((id, p) ∷ ps) ts =
    Keeps-trans (Keeps-stop_timer ts p.timer) (Keeps-stop_all ps (stop_timer p.timer ts))

-- Stopping timers makes none.
abbrev pub Blank : Store Timer → Store Timer → Type 0
Blank ts us = (t : ℕ) → ts t ≡ none → us t ≡ none

pub Blank-stop_at :
    (ts : Store Timer) (t : ℕ) (o : Option Timer) → ts t ≡ o → Blank ts (stop_at t o ts)
Blank-stop_at ts t none e k h = h
Blank-stop_at ts t (some tm) e k h = ground arith

pub Blank-stop_timer : (ts : Store Timer) (o : Option ℕ) → Blank ts (stop_timer o ts)
unfolding stop_timer
Blank-stop_timer ts none = λ k h. h
Blank-stop_timer ts (some t) = Blank-stop_at ts t (ts t) refl

pub Blank-stop_all : (ps : Assoc ProjectState) (ts : Store Timer) → Blank ts (stop_all ps ts)
unfolding stop_all
Blank-stop_all [] ts = λ k h. h
Blank-stop_all ((id, p) ∷ ps) ts =
    λ k h. Blank-stop_all ps (stop_timer p.timer ts) k (Blank-stop_timer ts p.timer k h)

pub Keeps-arm : (ts : Store Timer) (n : ℕ) (tm : Timer) → ts n ≡ none → Keeps ts (put_at ts n tm)
Keeps-arm ts n tm e t um h = (um, ground arith, refl)

pub fresh-arm :
    (ts : Store Timer) (n : ℕ) (tm : Timer)
    → ((t : ℕ) → n ≤ t → ts t ≡ none)
    → (t : ℕ) → suc n ≤ t
    → put_at ts n tm t ≡ none
fresh-arm ts n tm h t le = ground (arith, h t)

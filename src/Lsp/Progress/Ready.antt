-- ===== src/Lsp/Progress/Ready.antt =====
-- When the client says that the background index is ready.
use soft_ue_index.Base.{
  Bool, true, false, ◌||◌, ◌&&◌, not, List, [], ◌∷◌, ◌≡◌, refl, arith, if_intro, if_false, if_true,
  ◌∙◌, ap, ℕ,
}
use soft_ue_index.Base.Text.{Bytes, eqb, eqb_refl, eqb_iff, one_of}
use soft_ue_index.Lsp.Progress.{
  Index, IndexPhase, starting, begin, report, finish, other, IndexEvent, progresses, grace_starts,
  grace_ends, add_token, remove_token, is_none_left, ready_if, set_message, mark_ready,
  handle_progress, start_grace_window, grace_over, index_phase, index_step, index_steps,
}

module _ (t : Bytes) where
  -- Some event is the `end` of the token.
  unfoldable pub ends_token : List IndexEvent → Bool
  ends_token [] = false
  ends_token (progresses finish token title text ∷ es) = eqb token t || ends_token es
  ends_token (_ ∷ es) = ends_token es

  add_token-one_of :
      (u : Bytes) (ts : List Bytes) → one_of t ts ≡ true → one_of t (add_token u ts) ≡ true
  unfolding one_of
  add_token-one_of u ts h = ground (arith, h)

  add_token_self : (ts : List Bytes) → one_of t (add_token t ts) ≡ true
  unfolding one_of
  add_token_self ts = ground (arith, eqb_refl t)

  remove_token-one_of :
      (u : Bytes) (ts : List Bytes)
      → eqb u t ≡ false
      → one_of t ts ≡ true
      → one_of t (remove_token u ts) ≡ true
  unfolding one_of remove_token
  remove_token-one_of u [] ne h = h
  remove_token-one_of u (x ∷ ts) ne h =
      ground (arith, remove_token-one_of u ts ne, eqb_iff x u, eqb_iff t x, eqb_iff u t)

  some_left : (ts : List Bytes) → one_of t ts ≡ true → is_none_left ts ≡ false
  unfolding one_of
  some_left [] h = cc
  some_left (x ∷ ts) h = refl

  -- The token is in progress.
  record InProgress (s : Index) : Type 0 where
    token_active : one_of t s.active_tokens ≡ true
    seen : s.saw_progress ≡ true
    not_ready : s.ready ≡ false

  active_phase :
      (ts : List Bytes)
      → one_of t ts ≡ true
      → (elim ts [ [] ↦ starting | _ ↦ IndexPhase.indexing ]) ≡ IndexPhase.indexing
  unfolding one_of
  active_phase [] h = cc
  active_phase (x ∷ ts) h = refl

  InProgress-phase : (s : Index) → InProgress s → index_phase s ≡ IndexPhase.indexing
  unfolding index_phase
  InProgress-phase s h = if_false _ _ _ h.not_ready ∙ active_phase s.active_tokens h.token_active

  first_or : (b c : Bool) → b || c ≡ false → b ≡ false
  first_or b c h = ground arith

  rest_of :
      (e : IndexEvent) (es : List IndexEvent) → ends_token (e ∷ es) ≡ false → ends_token es ≡ false
  unfolding ends_token
  rest_of (progresses begin u title text) es h = h
  rest_of (progresses report u title text) es h = h
  rest_of (progresses finish u title text) es h = ground (arith, h)
  rest_of (progresses other u title text) es h = h
  rest_of grace_starts es h = h
  rest_of grace_ends es h = h

  set_message-InProgress :
      (text : Bytes) (s : Index) → InProgress s → InProgress (set_message text s)
  set_message-InProgress [] s h = h
  set_message-InProgress (c ∷ text) s h = record {
    token_active = h.token_active;
    seen = h.seen;
    not_ready = h.not_ready;
  }

  ready_if-InProgress :
      (b : Bool) (s : Index) → b ≡ false → InProgress s → InProgress (ready_if b s)
  ready_if-InProgress true s e h = absurd cc
  ready_if-InProgress false s e h = h

  no_grace :
      (s : Index) → InProgress s → not s.saw_progress && is_none_left s.active_tokens ≡ true → ⊥
  no_grace s h e = ground (arith, e, h.seen)

  index_step-InProgress :
      (e : IndexEvent) (es : List IndexEvent) (s : Index)
      → ends_token (e ∷ es) ≡ false
      → InProgress s
      → InProgress (index_step e s)
  unfolding index_step handle_progress ends_token start_grace_window grace_over
  index_step-InProgress (progresses begin u title text) es s ne h = record {
    token_active = add_token-one_of u s.active_tokens h.token_active;
    seen = refl;
    not_ready = h.not_ready;
  }
  index_step-InProgress (progresses report u title text) es s ne h =
      set_message-InProgress _ _
        (record { token_active = h.token_active; seen = refl; not_ready = h.not_ready })
  index_step-InProgress (progresses finish u title text) es s ne h =
      let kept = remove_token-one_of u s.active_tokens (first_or _ _ ne) h.token_active in
      ready_if-InProgress _ _ (some_left _ kept)
        (record { token_active = kept; seen = refl; not_ready = h.not_ready })
  index_step-InProgress (progresses other u title text) es s ne h = record {
    token_active = h.token_active;
    seen = refl;
    not_ready = h.not_ready;
  }
  index_step-InProgress grace_starts es s ne h =
      if_intro InProgress (s.grace || s.ready) _ _ (λ _. h)
        (λ _. record { token_active = h.token_active; seen = h.seen; not_ready = h.not_ready })
  index_step-InProgress grace_ends es s ne h =
      if_intro InProgress s.grace _ _
        (λ _.
          if_intro InProgress (not s.saw_progress && is_none_left s.active_tokens) (mark_ready s) s
            (λ e. absurd (no_grace s h e)) (λ _. h))
        (λ _. h)

  index_steps-InProgress :
      (es : List IndexEvent) (s : Index)
      → ends_token es ≡ false
      → InProgress s
      → InProgress (index_steps es s)
  unfolding index_steps
  index_steps-InProgress [] s ne h = h
  index_steps-InProgress (e ∷ es) s ne h =
      index_steps-InProgress es (index_step e s) (rest_of e es ne)
        (index_step-InProgress e es s ne h)

  -- While a run of the indexer that has announced itself before the client was ready has not said
  -- its `end`, the client says `indexing`: no other run's end and no timer makes it ready.
  pub indexing_until_end :
      (s : Index)
      → s.ready ≡ false
      → (title text : Bytes) (es : List IndexEvent) → ends_token es ≡ false
      → index_phase (index_steps (progresses begin t title text ∷ es) s) ≡ IndexPhase.indexing
  unfolding index_steps index_step handle_progress
  indexing_until_end s not_ready title text es ne = InProgress-phase _ (
      index_steps-InProgress es _ ne (record {
        token_active = add_token_self s.active_tokens;
        seen = refl;
        not_ready = not_ready;
      }))

mark_ready-ready : (s : Index) → (mark_ready s).ready ≡ true
mark_ready-ready s = if_intro (λ (x : Index). x.ready ≡ true) s.ready _ _ (λ e. e) (λ _. refl)

set_message-ready : (text : Bytes) (s : Index) → (set_message text s).ready ≡ s.ready
set_message-ready [] s = refl
set_message-ready (c ∷ text) s = refl

ready_if-ready : (b : Bool) (s : Index) → s.ready ≡ true → (ready_if b s).ready ≡ true
ready_if-ready true s h = mark_ready-ready s
ready_if-ready false s h = h

index_step-ready : (e : IndexEvent) (s : Index) → s.ready ≡ true → (index_step e s).ready ≡ true
unfolding index_step handle_progress start_grace_window grace_over
index_step-ready (progresses begin t title text) s h = h
index_step-ready (progresses report t title text) s h = set_message-ready _ _ ∙ h
index_step-ready (progresses finish t title text) s h = ready_if-ready _ _ h
index_step-ready (progresses other t title text) s h = h
index_step-ready grace_starts s h =
    if_intro (λ (x : Index). x.ready ≡ true) (s.grace || s.ready) _ _ (λ _. h) (λ _. h)
index_step-ready grace_ends s h =
    if_intro (λ (x : Index). x.ready ≡ true) s.grace _ _
      (λ _. if_intro (λ (x : Index). x.ready ≡ true) _ _ _ (λ _. mark_ready-ready s) (λ _. h))
      (λ _. h)

-- A client that is ready stays so, whatever follows.
pub index_steps-ready :
    (es : List IndexEvent) (s : Index) → s.ready ≡ true → (index_steps es s).ready ≡ true
unfolding index_steps
index_steps-ready [] s h = h
index_steps-ready (e ∷ es) s h = index_steps-ready es (index_step e s) (index_step-ready e s h)

when_ready : (b : Bool) (s : Index) → s.ready ≡ true → ready_if b s ≡ s
when_ready true s h = if_true _ _ _ h
when_ready false s h = refl

-- A run that announces itself with a title to a client that is ready leaves its title as the
-- message, and its end does not take it away: the client is ready with a message.
pub message_after_ready :
    (s : Index)
    → s.ready ≡ true
    → (token text : Bytes) (c : ℕ) (title : Bytes)
    → let after =
        index_steps
          (progresses begin token (c ∷ title) text ∷ progresses finish token [] [] ∷ [])
          s in
      (index_phase after ≡ IndexPhase.ready) × (after.message ≡ c ∷ title)
unfolding index_steps index_step handle_progress index_phase
message_after_ready s h token text c title = (
  if_true _ _ _
      (ready_if-ready (is_none_left (remove_token token (add_token token s.active_tokens))) _ h),
  ap (λ x. x.message) (when_ready _ _ h),
)

-- ===== src/Mcp/Stdio/Delivered.antt =====
-- What a Write does to the stream behind the writer.
use soft_ue_index.Base.{
  ℕ, zero, suc, ◌≤◌, ◌<◌, ◌≡◌, refl, Option, some, none, List, [], ◌∷◌, ◌++◌, length, arith, ltb,
  ◌==◌, take, drop, length-take, length-drop, All, All-append, take_whole, subst, Bool, not,
  if_intro, ap, sym, ◌∙◌, append_assoc, append-nil,
}
use soft_ue_index.Base.Text.{Bytes}
use soft_ue_index.Mcp.Stdio.{
  Writer, Sink, Written, accepted, frame_too_large, write_error, short_write, newline_at, put_frame,
  drain, write, concat, IsFrame, concat-append, newline_at-lt, take-append-drop, take-IsFrame,
}

-- A stream that was given whole frames, and then `part` of another.
pub record Broken (start : Writer) (w : Writer) : Type 0 where
  pub frames : List Bytes
  pub frame : Bytes
  pub rest : Bytes
  pub part : ℕ
  pub framed : All (IsFrame w.max_frame) (frames ++ (frame ∷ []))
  pub written_so : w.written ≡ frames ++ (take part frame ∷ [])
  pub kept : w.pending ≡ frame ++ rest
  pub in_order : concat frames ++ w.pending ≡ concat start.written ++ start.pending

-- What a Write that ends in `r` did to a stream that stood at `w`.
abbrev pub Delivered : Writer → Written × Writer → Type 0
Delivered w (accepted, w') =
    All (IsFrame w'.max_frame) w'.written
    × (concat w'.written ++ w'.pending ≡ concat w.written ++ w.pending)
    × (newline_at w'.pending ≡ none)
    × (length w'.pending ≤ w'.max_frame)
Delivered w (frame_too_large, w') = All (IsFrame w'.max_frame) w'.written × (w'.pending ≡ [])
Delivered w (write_error, w') = Broken w w'
Delivered w (short_write, w') = Broken w w'

Broken-same :
    (w v w' : Writer)
    → concat w.written ++ w.pending ≡ concat v.written ++ v.pending
    → Broken w w'
    → Broken v w'
Broken-same w v w' e h = record {
  frames = h.frames;
  frame = h.frame;
  rest = h.rest;
  part = h.part;
  framed = h.framed;
  written_so = h.written_so;
  kept = h.kept;
  in_order = h.in_order ∙ e;
}

Delivered-same :
    (w v : Writer) (o : Written × Writer)
    → concat w.written ++ w.pending ≡ concat v.written ++ v.pending
    → Delivered w o
    → Delivered v o
Delivered-same w v (accepted, w') e d = (d.0, d.1 ∙ e, d.2, d.3)
Delivered-same w v (frame_too_large, w') e d = d
Delivered-same w v (write_error, w') e d = Broken-same w v w' e d
Delivered-same w v (short_write, w') e d = Broken-same w v w' e d

-- the writer after the stream took a frame whole
abbrev advance : Writer → ℕ → Writer
advance w n = record w {
  pending = drop (suc n) w.pending;
  written = w.written ++ (take (suc n) w.pending ∷ []);
}

advance_same :
    (w : Writer) (n : ℕ)
    → concat (advance w n).written ++ (advance w n).pending ≡ concat w.written ++ w.pending
unfolding concat
advance_same w n =
    rw (concat-append w.written (take (suc n) w.pending ∷ []), append-nil (take (suc n) w.pending))
      (append_assoc (concat w.written) (take (suc n) w.pending) (drop (suc n) w.pending)
        ∙ ap (λ t. concat w.written ++ t) (take-append-drop (suc n) w.pending))

put_frame-Delivered :
    (w : Writer) (n : ℕ) (took : ℕ × Bool) (next : Writer → Written × Writer)
    → length (take (suc n) w.pending) ≡ suc n
    → IsFrame w.max_frame (take (suc n) w.pending)
    → All (IsFrame w.max_frame) w.written
    → Delivered (advance w n) (next (advance w n))
    → Delivered w (put_frame (take (suc n) w.pending) took w next)
put_frame-Delivered w n (k, failed) next size is_frame frames later =
    let frame = take (suc n) w.pending in
    let broken : Broken w (record w { written = w.written ++ (take k frame ∷ []) }) = record {
      frames = w.written;
      frame = frame;
      rest = drop (suc n) w.pending;
      part = k;
      framed = All-append (IsFrame w.max_frame) w.written _ frames (is_frame, tt);
      written_so = refl;
      kept = sym (take-append-drop (suc n) w.pending);
      in_order = refl;
    } in
    if_intro (Delivered w) failed _ _ (λ _. broken)
      (λ _.
        if_intro (Delivered w) (not (k == length frame)) _ _ (λ _. broken)
          (λ whole.
            let all : take k frame ≡ frame = take_whole k frame (ground (arith, whole)) in
            subst (λ (v : Writer). Delivered w (next v))
              (sym (
                ap
                  (λ f. record w {
                    pending = drop (length frame) w.pending;
                    written = w.written ++ (f ∷ []);
                  })
                  all
                ∙ ap
                    (λ j. record w {
                      pending = drop j w.pending;
                      written = w.written ++ (frame ∷ []);
                    })
                    size))
              (Delivered-same (advance w n) w (next (advance w n)) (advance_same w n) later)))

module _ (sink : Sink) where
  drain_on :
      (fuel : ℕ) (w : Writer) (o : Option ℕ)
      → newline_at w.pending ≡ o
      → length w.pending < suc fuel
      → ((w' : Writer)
          → length w'.pending < fuel
          → All (IsFrame w'.max_frame) w'.written
          → Delivered w' (drain sink fuel w'))
      → All (IsFrame w.max_frame) w.written
      → Delivered w (drain sink (suc fuel) w)
  unfolding drain
  drain_on fuel w none e le ih frames =
      rw (e, drain)
        (if_intro (Delivered w) (ltb w.max_frame (length w.pending)) _ _ (λ b. (frames, refl))
          (λ b. (frames, refl, e, ground arith)))
  drain_on fuel w (some n) e le ih frames =
      let size : length (take (suc n) w.pending) ≡ suc n =
        omega (arith, length-take (suc n) w.pending, newline_at-lt w.pending n e) in
      rw (e, drain)
        (if_intro (Delivered w) (ltb w.max_frame (suc n)) _ _ (λ b. (frames, refl))
          (λ b.
            let is_frame = take-IsFrame w.max_frame w.pending n e (ground arith) in
            put_frame-Delivered w n (sink w.written (take (suc n) w.pending)) (drain sink fuel) size
              is_frame frames
              (ih (advance w n)
                (omega (arith, length-drop (suc n) w.pending, newline_at-lt w.pending n e))
                (All-append (IsFrame w.max_frame) w.written _ frames (is_frame, tt)))))

  drain_lem :
      (fuel : ℕ) (w : Writer)
      → length w.pending < fuel
      → All (IsFrame w.max_frame) w.written
      → Delivered w (drain sink fuel w)
  drain_lem zero w h frames = absurd (omega arith)
  drain_lem (suc fuel) w h frames =
      drain_on fuel w (newline_at w.pending) refl h (drain_lem fuel) frames

-- A Write, on a stream that has so far been given only whole frames within the limit. If it accepts
-- its data, or finds a frame too large, then the stream was again given only such frames. If it
-- accepts, what was written followed by what is kept is what was there before followed by the data,
-- in order, and what is kept is a piece of a frame within the limit; if a frame is too large, the
-- buffer is dropped. If the stream fails or takes too little, it was given whole frames and the
-- first bytes of one more frame, and all of that frame is kept, with the rest of the data.
pub write_lem :
    (sink : Sink) (w : Writer) (input : Bytes)
    → All (IsFrame w.max_frame) w.written
    → Delivered (record w { pending = w.pending ++ input }) (write sink w input)
unfolding write
write_lem sink w input frames =
    drain_lem sink (suc (length (w.pending ++ input))) (record w { pending = w.pending ++ input })
      (omega arith) frames

-- ===== src/Mcp/Requests/Served.antt =====
-- What the SDK gets to see of the requests.
use soft_ue_index.Base.{
  take-drop, ℕ, ◌≤◌, ◌≡◌, refl, sym, ap, ◌∙◌, subst, Bool, true, false, ◌||◌, ◌&&◌, Option, some,
  none, List, [], ◌∷◌, ◌++◌, length, take, drop, length-drop, ltb, All, All-append, if_intro, arith,
  append_assoc, append-nil, ◌⊎◌, inl, inr,
}
use soft_ue_index.Base.Text.{Bytes, is_empty, contains, has_prefix}
use soft_ue_index.Lsp.Framing.{Slice, read_slice}
use soft_ue_index.Mcp.Stdio.{concat}
use soft_ue_index.Mcp.Requests.{
  Json, validate_request_id, StreamError, frame_too_large, frame_buffer, JsonReader, bom,
  without_bom, keep_line, is_full, accept_line, hand_out, new_json_reader, read_on, json_read,
  json_reads,
}
use soft_ue_index.Mcp.Requests.Lines.{
  EndsWell, Lines, Sliced, read_slice-Sliced, Ends-EndsWell, bom-drop, bom-EndsWell, Lines-last,
  concat-last,
}

-- A frame that the validation accepted, and that is within the limit.
abbrev pub IsAccepted : Json → JsonReader → Bytes → Type 0
IsAccepted j r f = (validate_request_id j r.max_string_id f ≡ true) × (length f ≤ r.max_frame)

module _ (j : Json) (start : JsonReader) where
  -- What was handed out so far, with what is pending, when `left` of the stream is left: accepted
  -- lines, which with a mark before the first of them are the stream up to there.
  pub record Served (out left : Bytes) (r : JsonReader) : Type 0 where
    pub frames : List Bytes
    pub mark : Bytes
    pub is_mark : (mark ≡ []) ⊎ (mark ≡ bom)
    pub accepted : All (IsAccepted j start) frames
    pub lines : Lines frames left
    pub whole : out ++ r.pending ≡ concat frames
    pub in_order : mark ++ (concat frames ++ left) ≡ start.stream
    pub fresh : r.first_frame ≡ true → (frames ≡ []) × (mark ≡ [])
    pub same_frame : r.max_frame ≡ start.max_frame
    pub same_id : r.max_string_id ≡ start.max_string_id

  -- Up to an error all that was read is handed out or pending; an error skips a part of the stream.
  abbrev pub AfterReads : Bytes → Option StreamError → JsonReader → Type 0
  AfterReads out none r = Served out r.stream r
  AfterReads out (some e) r = (skipped : Bytes) × Served out (skipped ++ r.stream) r

  moved :
      (out out' left left' : Bytes) (r q : JsonReader)
      → left ≡ left'
      → out ++ r.pending ≡ out' ++ q.pending
      → (q.first_frame ≡ true → r.first_frame ≡ true)
      → r.max_frame ≡ q.max_frame
      → r.max_string_id ≡ q.max_string_id
      → Served out left r
      → Served out' left' q
  moved out out' left left' r q l p f b c h = record {
    frames = h.frames;
    mark = h.mark;
    is_mark = h.is_mark;
    accepted = h.accepted;
    lines = subst (Lines h.frames) l h.lines;
    whole = sym p ∙ h.whole;
    in_order = ap (λ x. h.mark ++ (concat h.frames ++ x)) (sym l) ∙ h.in_order;
    fresh = λ e. h.fresh (f e);
    same_frame = sym b ∙ h.same_frame;
    same_id = sym c ∙ h.same_id;
  }

  -- one more frame, which comes from the line behind the others
  one_more :
      (out line rest f mark : Bytes) (r : JsonReader)
      → (h : Served out (line ++ rest) r) → r.pending ≡ []
      → is_empty line ≡ false
      → EndsWell f rest
      → IsAccepted j r f
      → (mark ≡ []) ⊎ (mark ≡ bom)
      → mark ++ ((concat h.frames ++ f) ++ rest) ≡ start.stream
      → Served out rest (record r { stream = rest; pending = f; first_frame = false })
  one_more out line rest f mark r h empty some_line well good is_mark order = record {
    frames = h.frames ++ (f ∷ []);
    mark = mark;
    is_mark = is_mark;
    accepted = All-append (IsAccepted j start) h.frames _ h.accepted (
      (
        subst (λ k. validate_request_id j k f ≡ true) h.same_id good.0,
        subst (λ k. length f ≤ k) h.same_frame good.1,
      ),
      tt,
    );
    lines = Lines-last h.frames f line rest h.lines some_line well;
    whole =
        ap (λ x. x ++ f) (sym (append-nil out) ∙ ap (λ x. out ++ x) (sym empty) ∙ h.whole)
        ∙ sym (concat-last h.frames f);
    in_order = ap (λ x. mark ++ (x ++ rest)) (concat-last h.frames f) ∙ order;
    fresh = λ e. absurd cc;
    same_frame = h.same_frame;
    same_id = h.same_id;
  }

  length-drop_three : (f : Bytes) (m : ℕ) → length f ≤ m → length (drop 3 f) ≤ m
  length-drop_three f m h = omega (arith, h, length-drop 3 f)

  module _ (out line rest : Bytes) (r : JsonReader) (empty : r.pending ≡ [])
      (some_line : is_empty line ≡ false) (well : EndsWell line rest)
      (small : length line ≤ r.max_frame) (h : Served out (line ++ rest) r) where
    abbrev after : JsonReader
    after = record r { stream = rest }

    abbrev Good : Option StreamError × JsonReader → Type 0
    Good o = AfterReads out o.0 o.1

    refused : Good (some frame_too_large, after)
    refused = (line, moved out out _ _ r after refl refl (λ e. e) refl refl h)

    refused_late : Good (some frame_too_large, record after { first_frame = false })
    refused_late = (
      line,
      moved out out _ _ r (record after { first_frame = false }) refl refl (λ e. absurd cc) refl
          refl h,
    )

    keep_marked :
        r.first_frame ≡ true
        → has_prefix line bom ≡ true
        → Good (keep_line j after (some (drop 3 line)))
    unfolding concat
    keep_marked first marked =
        let (no_frames, no_mark) = h.fresh first in
        let f = drop 3 line in
        let same = bom-drop line marked in
        let before : line ++ rest ≡ start.stream =
          sym (
            ap (λ m. m ++ (concat h.frames ++ (line ++ rest))) no_mark
            ∙ ap (λ fs. concat fs ++ (line ++ rest)) no_frames)
          ∙ h.in_order in
        if_intro Good (validate_request_id j r.max_string_id f) _ _
          (λ b.
            one_more out line rest f bom r h empty some_line
              (bom-EndsWell f rest (subst (λ x. EndsWell x rest) (sym same) well))
              (b, length-drop_three line r.max_frame small) (inr refl)
              (ap (λ fs. bom ++ ((concat fs ++ f) ++ rest)) no_frames
                ∙ ap (λ x. x ++ rest) same
                ∙ before))
          (λ _. refused_late)

    keep_plain : Good (keep_line j after (some line))
    keep_plain =
        if_intro Good (validate_request_id j r.max_string_id line) _ _
          (λ b.
            one_more out line rest line h.mark r h empty some_line well (b, small) h.is_mark
              (ap (λ x. h.mark ++ x) (append_assoc (concat h.frames) line rest) ∙ h.in_order))
          (λ _. refused_late)

    keep_line-Good : Good (keep_line j after (without_bom r.first_frame line))
    keep_line-Good =
        if_intro (λ o. Good (keep_line j after o)) (contains line bom) _ _
          (λ _.
            if_intro (λ o. Good (keep_line j after o)) (r.first_frame && has_prefix line bom) _ _
              (λ b. keep_marked (ground (arith, b)) (ground (arith, b))) (λ _. refused))
          (λ _. keep_plain)

  not_above : (a : Bool) (m n : ℕ) → (a || ltb m n) ≡ false → n ≤ m
  not_above a m n h = ground (arith, h)

  accept_line-AfterReads :
      (out : Bytes) (r : JsonReader) (x : Bytes × Slice × Bytes)
      → Sliced r.stream x
      → r.pending ≡ []
      → Served out r.stream r
      → AfterReads out (accept_line j r x).0 (accept_line j r x).1
  accept_line-AfterReads out r (line, how, rest) sliced empty h =
      let P : Option StreamError × JsonReader → Type 0 = λ o. AfterReads out o.0 o.1 in
      let before = moved out out _ _ r r (sym sliced.0) refl (λ e. e) refl refl h in
      let skip =
        moved out out _ _ r (record r { stream = rest }) refl refl (λ e. e) refl refl before in
      if_intro P (is_full how || ltb r.max_frame (length line)) _ _ (λ _. (line, skip))
        (λ b.
          if_intro P (is_empty line) _ _ (λ _. (line, skip))
            (λ c.
              keep_line-Good out line rest r empty c
                (Ends-EndsWell how line rest (ground (arith, b)) sliced.1) (not_above _ _ _ b)
                before))

  nothing_pending : (s : Bytes) → is_empty s ≡ true → s ≡ []
  nothing_pending [] h = refl
  nothing_pending (c ∷ s) h = absurd cc

  hand_out-AfterReads :
      (n : ℕ) (out : Bytes) (o : Option StreamError) (r : JsonReader)
      → AfterReads out o r
      → AfterReads (out ++ (hand_out n (o, r)).0) (hand_out n (o, r)).1 (hand_out n (o, r)).2
  hand_out-AfterReads n out (some e) r (skipped, h) = (
    skipped,
    moved out (out ++ []) _ _ r r refl (ap (λ x. x ++ r.pending) (sym (append-nil out))) (λ e. e)
        refl refl h,
  )
  hand_out-AfterReads n out none r h =
      moved out (out ++ take n r.pending) _ _ r (record r { pending = drop n r.pending }) refl
        (ap (λ x. out ++ x) (sym (take-drop n r.pending))
          ∙ sym (append_assoc out (take n r.pending) (drop n r.pending)))
        (λ e. e) refl refl h

  json_read-AfterReads :
      (n : ℕ) (out : Bytes) (r : JsonReader)
      → Served out r.stream r
      → AfterReads (out ++ (json_read j n r).0) (json_read j n r).1 (json_read j n r).2
  unfolding json_read
  json_read-AfterReads n out r h =
      if_intro
        (λ (o : Option StreamError × JsonReader).
          AfterReads (out ++ (hand_out n o).0) (hand_out n o).1 (hand_out n o).2)
        (is_empty r.pending) _ _
        (λ b.
          let sliced = read_slice (frame_buffer r.max_frame) r.stream in
          let filled = accept_line j r sliced in
          hand_out-AfterReads n out filled.0 filled.1 (
            accept_line-AfterReads out r sliced
              (read_slice-Sliced (frame_buffer r.max_frame) r.stream) (nothing_pending r.pending b)
              h))
        (λ _. hand_out-AfterReads n out none r h)

  json_reads-AfterReads :
      (ns : List ℕ) (out : Bytes) (r : JsonReader)
      → Served out r.stream r
      → AfterReads (out ++ (json_reads j ns r).0) (json_reads j ns r).1 (json_reads j ns r).2
  unfolding json_reads
  json_reads-AfterReads [] out r h =
      moved out (out ++ []) _ _ r r refl (ap (λ x. x ++ r.pending) (sym (append-nil out))) (λ e. e)
        refl refl h
  json_reads-AfterReads (n ∷ ns) out r h =
      read_on-AfterReads (json_read j n r) (json_read-AfterReads n out r h)
        (json_reads-AfterReads ns)
    where
      read_on-AfterReads :
          (x : Bytes × Option StreamError × JsonReader)
          → AfterReads (out ++ x.0) x.1 x.2
          → ((o : Bytes) (q : JsonReader)
              → Served o q.stream q
              → AfterReads (o ++ (json_reads j ns q).0) (json_reads j ns q).1 (json_reads j ns q).2)
          → AfterReads
              (out ++ (read_on x (json_reads j ns x.2)).0)
              (read_on x (json_reads j ns x.2)).1
              (read_on x (json_reads j ns x.2)).2
      read_on-AfterReads (bytes, some e, q) a later = a
      read_on-AfterReads (bytes, none, q) a later =
          subst (λ o. AfterReads o (json_reads j ns q).1 (json_reads j ns q).2)
            (append_assoc out bytes (json_reads j ns q).0) (later (out ++ bytes) q a)

-- Whatever Reads are made on a new reader, with buffers of whatever sizes, up to the first error: the
-- bytes that they gave, with those that are pending, are frames one after another, each of which the
-- validation accepted and is within the frame limit. Each frame is a line with its newline, or the
-- end of the stream without one; and the frames, behind a byte order mark that was dropped if there
-- was one, are the stream as it came, up to what has not been read yet, or to what the Read that
-- failed skipped.
pub json_reads_sound :
    (j : Json) (stream : Bytes) (max_frame max_string_id : ℕ) (ns : List ℕ)
    → let r = new_json_reader stream max_frame max_string_id in
      AfterReads j r (json_reads j ns r).0 (json_reads j ns r).1 (json_reads j ns r).2
unfolding concat new_json_reader
json_reads_sound j stream max_frame max_string_id ns =
    let r = new_json_reader stream max_frame max_string_id in
    json_reads-AfterReads j r ns [] r (record {
      frames = [];
      mark = [];
      is_mark = inl refl;
      accepted = tt;
      lines = tt;
      whole = refl;
      in_order = refl;
      fresh = λ e. (refl, refl);
      same_frame = refl;
      same_id = refl;
    })

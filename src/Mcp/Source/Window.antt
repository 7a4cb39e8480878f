-- ===== src/Mcp/Source/Window.antt =====
-- The loop of ReadSymbolSource writes the start of the requested lines.
use soft_ue_index.Base.{
  ◌↔◌, take-nil, ℕ, zero, suc, ◌+◌, ◌-◌, ◌≤◌, ◌<◌, ◌≡◌, refl, sym, ap, ◌∙◌, subst, true, false,
  List, [], ◌∷◌, ◌++◌, length, take, drop, ltb, leb, ◌==◌, if_intro, if_true, if_false, min, arith,
  append-nil, append_assoc, length-append, length-take, take-append, take_whole, ltb→lt, ==_iff,
  Bool-cases, inl, inr,
}
use soft_ue_index.Base.Text.{Bytes}
use soft_ue_index.Mcp.Source.{
  Reading, Ending, separator, whole_line, cut_line, read_loop, first_reading,
}

-- the lines, each behind a newline
unfoldable pub with_newlines : List Bytes → Bytes
with_newlines [] = []
with_newlines (line ∷ rest) = 10 ∷ (line ++ with_newlines rest)

-- the lines with newlines between them
abbrev pub joined : List Bytes → Bytes
joined [] = []
joined (line ∷ rest) = line ++ with_newlines rest

take-min : {A : Type 0} (n : ℕ) (xs : List A) → take (min n (length xs)) xs ≡ take n xs
take-min n xs = elim (Bool-cases (leb n (length xs))) [
  | inl b ↦ ap (λ k. take k xs) (ground arith)
  | inr b ↦
      ap (λ k. take k xs) (ground arith)
      ∙ take_whole (length xs) xs (omega arith)
      ∙ sym (take_whole n xs (ground arith))
]

-- a text that is cut before what follows it
take_first : {A : Type 0} (n : ℕ) (xs ys : List A) → n ≤ length xs → take n (xs ++ ys) ≡ take n xs
take_first zero xs ys h = refl
take_first (suc n) [] ys h = absurd (omega (arith, h))
take_first (suc n) (x ∷ xs) ys h = cc (take_first n xs ys (omega (arith, h)))

-- what is left of the space after a piece that is cut to it
rest_of_space : (r k : ℕ) → r - min r k ≡ r - k
rest_of_space r k = omega arith

pieces :
    (limit : ℕ) (text sep part more : Bytes)
    → length text ≤ limit
    → limit - length text ≤ length sep + length part
    → (let remaining = limit - length text in
        let separated = take remaining sep in
        (text ++ separated) ++ take (min (remaining - length separated) (length part)) part)
      ≡ take limit (text ++ (sep ++ (part ++ more)))
pieces limit text sep part more small over =
    let r = limit - length text in
    append_assoc text (take r sep) _
    ∙ ap (λ x. text ++ (take r sep ++ x))
        (take-min (r - length (take r sep)) part
          ∙ ap (λ k. take k part)
              (ap (λ k. r - k) (length-take r sep) ∙ rest_of_space r (length sep))
          ∙ sym (take_first (r - length sep) part more (omega (arith, over))))
    ∙ ap (λ x. text ++ x) (sym (take-append r sep (part ++ more)))
    ∙ ap (λ x. x ++ take r (sep ++ (part ++ more))) (sym (take_whole limit text small))
    ∙ sym (take-append limit text (sep ++ (part ++ more)))

-- a text that does not fit
longer :
    {limit : ℕ} (text sep part more : Bytes)
    → limit < length text + (length sep + length part)
    → true ≡ ltb limit (length (text ++ (sep ++ (part ++ more))))
longer text sep part more over = ground (
  arith,
  over,
  length-append text (sep ++ (part ++ more)),
  length-append sep (part ++ more),
  length-append part more,
)

not_below : (a b : ℕ) → b ≤ a → ltb a b ≡ true → ⊥
not_below a b le h = ground (arith, le, h)

below_limit : (a b : ℕ) → ltb a b ≡ false → b ≤ a
below_limit a b h = ground (arith, h)

strictly : (a b : ℕ) → a ≤ b → ((a == b) ≡ true) ↔ (a ≡ b) → (a == b) ≡ false → a < b
strictly a b le iff h = ground (arith, le, h)

nothing_left : {a b : ℕ} → a ≡ b → b - a ≡ 0
nothing_left e = omega (arith, e)

reached : (start line : ℕ) → start ≤ line → leb start line ≡ true
reached start line h = ground (arith, h)

not_reached : (start last : ℕ) → last < start → leb start last ≡ false
not_reached start last h = ground (arith, h)

is_below : (a b : ℕ) → a < b → ltb a b ≡ true
is_below a b h = ground (arith, h)

drop-nil : (n : ℕ) → drop {A = Bytes} n [] ≡ []
drop-nil zero = refl
drop-nil (suc n) = refl

window_size :
    (line start stop : ℕ)
    → suc line ≡ start
    → start ≤ stop
    → suc stop - start ≡ suc (stop - suc line)
window_size line start stop e h = omega (arith, e, h)

one_more : (line stop : ℕ) → line < stop → stop - line ≡ suc (stop - suc line)
one_more line stop h = omega (arith, h)

-- the lines from the first one that is requested to the last one, when `line` lines were skipped
abbrev pub window : ℕ → ℕ → ℕ → List Bytes → List Bytes
window start stop line lines = take (suc stop - start) (drop (start - suc line) lines)

module _ (start stop limit : ℕ) where
  -- What was read is the start of the text, as long as the limit allows, and says if it is cut.
  pub record IsStartOf (body : Bytes) (s : Reading) : Type 0 where
    pub text : s.text ≡ take limit body
    pub cut : s.truncated ≡ ltb limit (length body)

  -- a text that is within the limit so far
  record Within (s : Reading) : Type 0 where
    small : length s.text ≤ limit
    whole : s.truncated ≡ false

  done_here : (s : Reading) → Within s → IsStartOf s.text s
  done_here s h = record {
    text = sym (take_whole limit s.text h.small);
    cut = h.whole ∙ sym (at_most (length s.text) h.small);
  }
    where
      at_most : (n : ℕ) → n ≤ limit → ltb limit n ≡ false
      at_most n le = ground arith

  cut_line-IsStartOf :
      (line : ℕ) (part : Bytes) (s : Reading) (more : Bytes)
      → Within s
      → limit < length s.text + (length (separator start s) + length part)
      → IsStartOf
          (s.text ++ (separator start s ++ (part ++ more)))
          (cut_line start stop limit line part s)
  cut_line-IsStartOf line part s more h over = record {
    text = pieces limit s.text (separator start s) part more h.small (omega (arith, over));
    cut = longer s.text (separator start s) part more over;
  }

  nothing_read : Within (first_reading start)
  nothing_read = record { small = omega arith; whole = refl }

  -- a line of the window, given what the loop does behind it
  read_line :
      (line : ℕ) (part : Bytes) (rest : List Bytes) (s : Reading)
      → start ≤ suc line
      → suc line ≤ stop
      → Within s
      → (let after = whole_line start stop limit (suc line) part s in
          suc line < stop
          → Within after
          → IsStartOf
              (after.text ++ with_newlines (take (stop - suc line) rest))
              (read_loop start stop limit (suc line) rest after).0)
      → IsStartOf
          (s.text ++ (separator start s ++ (part ++ with_newlines (take (stop - suc line) rest))))
          (read_loop start stop limit line (part ∷ rest) s).0
  unfolding read_loop with_newlines
  read_line line part rest s low high h later =
      let sep = separator start s in
      let after = whole_line start stop limit (suc line) part s in
      let behind = with_newlines (take (stop - suc line) rest) in
      let body = s.text ++ (sep ++ (part ++ behind)) in
      let P : Reading × ℕ × Ending → Type 0 = λ o. IsStartOf body o.0 in
      let assoc : after.text ++ behind ≡ body =
        append_assoc (s.text ++ sep) part behind ∙ append_assoc s.text sep (part ++ behind) in
      if_intro P (ltb (suc line) start) _ _ (λ b. absurd (not_below _ _ low b))
        (λ reached.
          if_intro P (ltb stop (suc line)) _ _ (λ b. absurd (not_below _ _ high b))
            (λ _.
              if_intro P (ltb limit (length s.text + (length sep + length part))) _ _
                (λ b. cut_line-IsStartOf (suc line) part s behind h (ltb→lt _ _ b))
                (λ small.
                  let within : Within after = record {
                    small = omega (
                      arith,
                      below_limit _ _ small,
                      length-append (s.text ++ sep) part,
                      length-append s.text sep,
                    );
                    whole = h.whole;
                  } in
                  if_intro P (suc line == stop) _ _
                    (λ b.
                      subst (λ x. IsStartOf x after)
                        (sym (ends_with after.text ((==_iff (suc line) stop).0 b)) ∙ assoc)
                        (done_here after within))
                    (λ b.
                      subst (λ st. IsStartOf body (read_loop start stop limit (suc line) rest st).0)
                        (sym (if_false (ltb (suc line) start) s after reached))
                        (subst
                          (λ x. IsStartOf x (read_loop start stop limit (suc line) rest after).0)
                          assoc (later (strictly _ _ high (==_iff (suc line) stop) b) within))))))
    where
      ends_with :
          (text : Bytes)
          → suc line ≡ stop
          → text ++ with_newlines (take (stop - suc line) rest) ≡ text
      ends_with text e =
          ap (λ k. text ++ with_newlines (take k rest)) (nothing_left e) ∙ append-nil text

  -- the lines behind a line that was written
  read_lines :
      (rest : List Bytes) (line : ℕ) (s : Reading)
      → start ≤ line
      → line < stop
      → s.last ≡ line
      → Within s
      → IsStartOf
          (s.text ++ with_newlines (take (stop - line) rest))
          (read_loop start stop limit line rest s).0
  unfolding read_loop with_newlines
  read_lines [] line s low high e h =
      subst (λ x. IsStartOf x s)
        (sym (ap (λ w. s.text ++ with_newlines w) (take-nil (stop - line)) ∙ append-nil s.text))
        (done_here s h)
  read_lines (part ∷ rest) line s low high e h =
      let now = suc line in
      let due : separator start s ≡ 10 ∷ [] =
        if_true _ _ _ (subst (λ k. leb start k ≡ true) (sym e) (reached start line low)) in
      let taken : take (stop - line) (part ∷ rest) ≡ part ∷ take (stop - now) rest =
        ap (λ k. take k (part ∷ rest)) (one_more line stop high) in
      subst
        (λ w.
          IsStartOf (s.text ++ with_newlines w) (read_loop start stop limit line (part ∷ rest) s).0)
        (sym taken)
        (subst
          (λ x.
            IsStartOf (s.text ++ (x ++ (part ++ with_newlines (take (stop - now) rest))))
              (read_loop start stop limit line (part ∷ rest) s).0)
          due
          (read_line line part rest s (omega (arith, low)) (omega (arith, high)) h (λ more within.
            read_lines rest now (whole_line start stop limit now part s) (omega (arith, low)) more
              refl within)))

  skip_line :
      (line : ℕ) (part : Bytes) (rest : List Bytes) (s : Reading)
      → suc line < start
      → read_loop start stop limit line (part ∷ rest) s
        ≡ read_loop start stop limit (suc line) rest s
  unfolding read_loop
  skip_line line part rest s lt =
      let skipped = is_below (suc line) start lt in
      if_true _ _ _ skipped
      ∙ ap (read_loop start stop limit (suc line) rest) (if_true _ _ _ skipped)

  pub read_loop-IsStartOf :
      (lines : List Bytes) (line : ℕ)
      → suc line ≤ start
      → start ≤ stop
      → IsStartOf
          (joined (window start stop line lines))
          (read_loop start stop limit line lines (first_reading start)).0
  unfolding read_loop
  read_loop-IsStartOf [] line low high =
      subst (λ w. IsStartOf (joined w) (first_reading start))
        (sym (
          ap (take (suc stop - start)) (drop-nil (start - suc line)) ∙ take-nil (suc stop - start)))
        (done_here (first_reading start) nothing_read)
  read_loop-IsStartOf (part ∷ rest) line low high = elim (Bool-cases (suc line == start)) [
    | inl b ↦
        (let here = (==_iff (suc line) start).0 b in
          let requested : window start stop line (part ∷ rest)
              ≡ part ∷ take (stop - suc line) rest =
            ap (λ k. take (suc stop - start) (drop k (part ∷ rest))) (nothing_left here)
            ∙ ap (λ k. take k (part ∷ rest)) (window_size line start stop here high) in
          let none_due : separator start (first_reading start) ≡ [] =
            if_false _ _ _ (not_reached start (start - 1) (omega (arith, low))) in
          subst
            (λ w.
              IsStartOf (joined w)
                (read_loop start stop limit line (part ∷ rest) (first_reading start)).0)
            (sym requested)
            (subst
              (λ x.
                IsStartOf (x ++ (part ++ with_newlines (take (stop - suc line) rest)))
                  (read_loop start stop limit line (part ∷ rest) (first_reading start)).0)
              none_due
              (read_line line part rest (first_reading start) (omega (arith, here))
                (omega (arith, here, high)) nothing_read
                (λ more within.
                  read_lines rest (suc line)
                    (whole_line start stop limit (suc line) part (first_reading start))
                    (omega (arith, here)) more refl within))))
    | inr b ↦
        (let lt = strictly _ _ low (==_iff (suc line) start) b in
          let skipped : window start stop line (part ∷ rest) ≡ window start stop (suc line) rest =
            ap (λ k. take (suc stop - start) (drop k (part ∷ rest)))
              (one_more (suc line) start lt) in
          subst
            (λ w.
              IsStartOf (joined w)
                (read_loop start stop limit line (part ∷ rest) (first_reading start)).0)
            (sym skipped)
            (subst (λ o. IsStartOf (joined (window start stop (suc line) rest)) o.0)
              (sym (skip_line line part rest (first_reading start) lt))
              (read_loop-IsStartOf rest (suc line) lt high)))
  ]

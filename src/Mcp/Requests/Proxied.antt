-- ===== src/Mcp/Requests/Proxied.antt =====
-- The proxy forwards good requests as they are.
use soft_ue_index.Base.{
  take-drop, ℕ, zero, suc, ◌-◌, ◌≤◌, ◌<◌, ◌≡◌, refl, sym, ap, ◌∙◌, subst, true, false, Option, some,
  none, List, [], ◌∷◌, ◌++◌, length, take, drop, ltb, ◌==◌, All, if_true, if_false, arith,
  length-drop, Bool-cases, inl, inr,
}
use soft_ue_index.Base.Text.{Bytes}
use soft_ue_index.Lsp.Framing.{Slice, found, at_end, read_slice}
use soft_ue_index.Mcp.Stdio.{concat, newline_at, IsFrame}
use soft_ue_index.Mcp.Requests.{
  Json, validate_request_id, StreamError, end_of_file, frame_buffer, frame_of, after_write, go_on,
  after_frame, read_request_frame, write_all, proxy_frames,
}

-- The writer takes at least a byte and no more than it is given.
abbrev pub Takes : (Bytes → Option ℕ) → Bytes → Type 0
Takes takes payload = (n : ℕ) × (takes payload ≡ some n) × (1 ≤ n) × (n ≤ length payload)

not_none : (n : ℕ) → 1 ≤ n → (n == 0) ≡ false
not_none n h = ground (arith, h)

module _ (takes : Bytes → Option ℕ)
    (writes : (c : ℕ) (payload : Bytes) → Takes takes (c ∷ payload)) where
  write_all_lem :
      (fuel : ℕ) (payload : Bytes)
      → length payload ≤ fuel
      → write_all fuel takes payload ≡ (payload, none)
  unfolding write_all
  write_all_lem zero [] h = refl
  write_all_lem (suc fuel) [] h = refl
  write_all_lem zero (c ∷ payload) h = absurd (omega (arith, h))
  write_all_lem (suc fuel) (c ∷ payload) h =
      let (n, taken, some_bytes, few) = writes c payload in
      let rest =
        write_all_lem fuel (drop n (c ∷ payload))
          (omega (arith, h, length-drop n (c ∷ payload), some_bytes)) in
      ap (after_write (write_all fuel takes) (c ∷ payload)) taken
      ∙ if_false _ _ _ (not_none n some_bytes)
      ∙ ap (λ (x : Bytes × Option StreamError). (take n (c ∷ payload) ++ x.0, x.1)) rest
      ∙ ap (λ x. (x, none)) (take-drop n (c ∷ payload))

-- A request that is one line within the limits.
abbrev pub IsRequest : Json → ℕ → ℕ → Bytes → Type 0
IsRequest j max_frame max_id f = IsFrame max_frame f × (validate_request_id j max_id f ≡ true)

some_same : {a b : ℕ} → ◌≡◌ {A = Option ℕ} (some a) (some b) → a ≡ b
some_same e = cc

empty_list : (f : Bytes) → length f ≡ 0 → f ≡ []
empty_list [] h = refl
empty_list (c ∷ f) h = absurd (omega (arith, h))

later_newline :
    (o : Option ℕ) (n : ℕ)
    → (elim o [ none ↦ none | some m ↦ some (suc m) ]) ≡ some n
    → (m : ℕ) × (o ≡ some m) × (n ≡ suc m)
later_newline none n e = absurd cc
later_newline (some m) n e = (m, refl, sym (some_same e))

-- a line is found at once when there is space for it
read_slice-newline :
    (f rest : Bytes) (space : ℕ) (n : ℕ)
    → newline_at f ≡ some n
    → length f ≡ suc n
    → length f ≤ space
    → read_slice space (f ++ rest) ≡ (f, found, rest)
unfolding read_slice newline_at
read_slice-newline [] rest space n e l h = cc
read_slice-newline (c ∷ f) rest zero n e l h = absurd (omega (arith, h))
read_slice-newline (c ∷ f) rest (suc space) n e l h = elim (Bool-cases (c == 10)) [
  | inl b ↦
      (let first : n ≡ 0 = some_same (sym e ∙ if_true (c == 10) _ _ b) in
        let nothing = empty_list f (omega (arith, first, l)) in
        if_true (c == 10) _ _ b
        ∙ subst
            (λ g. ◌≡◌ {A = Bytes × Slice × Bytes} (c ∷ [], found, g ++ rest) (c ∷ g, found, rest))
            (sym nothing) refl)
  | inr b ↦
      (let (m, later, follows) =
          later_newline (newline_at f) n (sym (if_false (c == 10) _ _ b) ∙ e) in
        if_false (c == 10) _ _ b
        ∙ ap (λ (x : Bytes × Slice × Bytes). (c ∷ x.0, x.1, x.2))
            (read_slice-newline f rest space m later (omega (arith, follows, l))
              (omega (arith, h))))
]

not_above : (a b : ℕ) → b ≤ a → ltb a b ≡ false
not_above a b h = ground (arith, h)

read_slice-nil : (space : ℕ) → 1 ≤ space → read_slice space [] ≡ ([], at_end, [])
unfolding read_slice
read_slice-nil zero h = absurd (omega (arith, h))
read_slice-nil (suc space) h = refl

read_request_frame-frame :
    (max_frame : ℕ) (f rest : Bytes)
    → IsFrame max_frame f
    → read_request_frame max_frame (f ++ rest) ≡ (some (f, rest), end_of_file)
unfolding read_request_frame
read_request_frame-frame max_frame f rest h =
    ap (frame_of max_frame) (
      read_slice-newline f rest (frame_buffer max_frame) (length f - 1) h.0 (omega (arith, h.1))
        (omega (arith, h.2)))
    ∙ if_false _ _ _ (not_above max_frame (length f) h.2)

module _ (j : Json) (max_frame max_id : ℕ) (takes : Bytes → Option ℕ)
    (writes : (c : ℕ) (payload : Bytes) → Takes takes (c ∷ payload)) where
  nothing_more : read_request_frame max_frame [] ≡ (none, end_of_file)
  unfolding read_request_frame
  nothing_more =
      ap (frame_of max_frame) (read_slice-nil (frame_buffer max_frame) (omega arith))
      ∙ if_false (ltb max_frame 0) _ _ (not_above max_frame 0 (omega arith))

  -- A stream of requests, each a line within the limits that the validation accepts, is forwarded as
  -- it is, byte for byte, until it ends; the writer may take each of them in pieces.
  pub proxy_frames_lem :
      (requests : List Bytes)
      → All (IsRequest j max_frame max_id) requests
      → (fuel : ℕ) → length requests < fuel
      → proxy_frames fuel j max_frame max_id takes (concat requests)
        ≡ (concat requests, end_of_file)
  unfolding proxy_frames concat
  proxy_frames_lem requests h zero lt = absurd (omega (arith, lt))
  proxy_frames_lem [] h (suc fuel) lt =
      ap (after_frame (proxy_frames fuel j max_frame max_id takes) j max_id takes) nothing_more
  proxy_frames_lem (f ∷ requests) h (suc fuel) lt =
      ap (after_frame (proxy_frames fuel j max_frame max_id takes) j max_id takes)
        (read_request_frame-frame max_frame f (concat requests) h.0.0)
      ∙ if_true (validate_request_id j max_id f) _ _ h.0.1
      ∙ ap (go_on (proxy_frames fuel j max_frame max_id takes (concat requests)))
          (write_all_lem takes writes (length f) f (omega arith))
      ∙ ap (λ (x : Bytes × StreamError). (f ++ x.0, x.1))
          (proxy_frames_lem requests h.1 fuel (omega (arith, lt)))

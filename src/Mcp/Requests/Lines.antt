-- ===== src/Mcp/Requests/Lines.antt =====
-- The lines of a stream, with and without a byte order mark.
use soft_ue_index.Base.{
  ℕ, zero, suc, ◌+◌, ◌-◌, ◌≤◌, ◌≡◌, refl, sym, ap, ◌∙◌, true, false, some, none, List, [], ◌∷◌,
  ◌++◌, length, drop, ◌==◌, if_intro, arith, append_assoc, append-nil, ◌⊎◌, inl, inr, Option-cases,
}
use soft_ue_index.Base.Text.{Bytes, is_empty, has_prefix}
use soft_ue_index.Lsp.Framing.{Slice, found, full, at_end, read_slice}
use soft_ue_index.Mcp.Stdio.{concat, newline_at, newline_at-lt}
use soft_ue_index.Mcp.Requests.{bom, is_full}

-- A text that ends at its only newline.
abbrev pub IsLine : Bytes → Type 0
IsLine f = (newline_at f ≡ some (length f - 1)) × (1 ≤ length f)

-- A line before `left`: one without a newline is the end of the stream.
abbrev pub EndsWell : Bytes → Bytes → Type 0
EndsWell f left = IsLine f ⊎ ((newline_at f ≡ none) × (left ≡ []))

-- Frames before `left`: lines, of which only the last one of the stream may have no newline.
abbrev pub Lines : List Bytes → Bytes → Type 0
Lines [] left = Unit
Lines (f ∷ fs) left = (IsLine f × Lines fs left) ⊎ ((newline_at f ≡ none) × (fs ≡ []) × (left ≡ []))

-- what a ReadSlice returns
abbrev pub Ends : Slice → Bytes → Bytes → Type 0
Ends found line rest = IsLine line
Ends full line rest = Unit
Ends at_end line rest = (newline_at line ≡ none) × (rest ≡ [])

abbrev pub Sliced : Bytes → Bytes × Slice × Bytes → Type 0
Sliced s (line, how, rest) = (line ++ rest ≡ s) × Ends how line rest

Ends-cons :
    (c : ℕ) (how : Slice) (line rest : Bytes)
    → (c == 10) ≡ false
    → Ends how line rest
    → Ends how (c ∷ line) rest
unfolding newline_at
Ends-cons c found line rest b h = (ground (arith, b, h.0, h.1), omega arith)
Ends-cons c full line rest b h = tt
Ends-cons c at_end line rest b h = (ground (arith, b, h.0), h.1)

pub read_slice-Sliced : (space : ℕ) (s : Bytes) → Sliced s (read_slice space s)
unfolding read_slice newline_at
read_slice-Sliced zero s = (refl, tt)
read_slice-Sliced (suc space) [] = (refl, (refl, refl))
read_slice-Sliced (suc space) (c ∷ s) =
    let later = read_slice-Sliced space s in
    if_intro (Sliced (c ∷ s)) (c == 10) _ _ (λ b. (refl, (ground (arith, b), omega arith)))
      (λ b. (
        ap (λ t. c ∷ t) later.0,
        Ends-cons c (read_slice space s).1 (read_slice space s).0 (read_slice space s).2 b later.1,
      ))

pub Ends-EndsWell :
    (how : Slice) (line rest : Bytes)
    → is_full how ≡ false
    → Ends how line rest
    → EndsWell line rest
Ends-EndsWell found line rest b h = inl h
Ends-EndsWell full line rest b h = absurd cc
Ends-EndsWell at_end line rest b h = inr h

-- the mark at the start of a line
pub bom-drop : (line : Bytes) → has_prefix line bom ≡ true → bom ++ drop 3 line ≡ line
unfolding has_prefix
bom-drop [] h = absurd (ground (arith, h))
bom-drop (a ∷ []) h = absurd (ground (arith, h))
bom-drop (a ∷ b ∷ []) h = absurd (ground (arith, h))
bom-drop (a ∷ b ∷ c ∷ s) h =
    ap (λ x. x ∷ 187 ∷ 191 ∷ s) (first a 239 (ground (arith, h)))
    ∙ ap (λ x. a ∷ x ∷ 191 ∷ s) (first b 187 (ground (arith, h)))
    ∙ ap (λ x. a ∷ b ∷ x ∷ s) (first c 191 (ground (arith, h)))
  where
    first : (x y : ℕ) → (x == y) ≡ true → y ≡ x
    first x y e = ground (arith, e)

bom-newline_at :
    (s : Bytes) (n : ℕ)
    → newline_at (bom ++ s) ≡ some n
    → (m : ℕ) × (newline_at s ≡ some m) × (n ≡ m + 3)
unfolding newline_at
bom-newline_at s n h = elim (Option-cases (newline_at s)) [
  | inl e ↦ absurd (ground (arith, h, e))
  | inr (m, e) ↦ (m, e, ground (arith, h, e))
]

pub bom-EndsWell : (s rest : Bytes) → EndsWell (bom ++ s) rest → EndsWell s rest
unfolding newline_at
bom-EndsWell s rest (inl h) =
    let (m, e, same) = bom-newline_at s (length (bom ++ s) - 1) h.0 in
    inl (e ∙ ap some (omega (arith, same, newline_at-lt s m e)), omega (arith, newline_at-lt s m e))
bom-EndsWell s rest (inr h) = inr (ground (arith, h.0), h.1)

not_both : (line rest : Bytes) → is_empty line ≡ false → line ++ rest ≡ [] → ⊥
not_both [] rest a b = cc
not_both (c ∷ line) rest a b = cc

pub Lines-last :
    (fs : List Bytes) (f line rest : Bytes)
    → Lines fs (line ++ rest)
    → is_empty line ≡ false
    → EndsWell f rest
    → Lines (fs ++ (f ∷ [])) rest
Lines-last [] f line rest h b (inl e) = inl (e, tt)
Lines-last [] f line rest h b (inr e) = inr (e.0, refl, e.1)
Lines-last (x ∷ fs) f line rest (inl h) b e = inl (h.0, Lines-last fs f line rest h.1 b e)
Lines-last (x ∷ fs) f line rest (inr h) b e = absurd (not_both line rest b h.2)

pub concat-last : (xs : List Bytes) (x : Bytes) → concat (xs ++ (x ∷ [])) ≡ concat xs ++ x
unfolding concat
concat-last [] x = append-nil x
concat-last (y ∷ xs) x = ap (λ z. y ++ z) (concat-last xs x) ∙ sym (append_assoc y (concat xs) x)

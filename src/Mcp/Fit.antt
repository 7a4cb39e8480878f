-- ===== src/Mcp/Fit.antt =====
-- internal/mcpserver/server.go: fitText, the binary search for the longest prefix of a text whose
-- result still fits the response. The valid form of a text and the starts of its characters
-- (package utf8) are arguments.
use soft_ue_index.Base.{
  ℕ, zero, suc, ◌+◌, ◌-◌, ◌/◌, ◌≤◌, ◌<◌, ◌≡◌, refl, Bool, true, false, ◌⊎◌, inl, inr, List, [], ◌∷◌,
  ◌++◌, length, take, leb, ltb, if◌then◌else◌, if_intro, ltb→lt, arith, subst, sym,
}
use soft_ue_index.Base.Text.{Bytes}
use soft_ue_index.Base.Result.{Result, ok, err}
use soft_ue_index.Mcp.Search.{ToolError, bounded}

-- Package utf8, and the result that a text is put into.
pub record Fitting (A : Type 0) : Type 0 where
  pub to_valid : Bytes → Bytes
  pub starts : Bytes → List ℕ
  pub build : Bytes → Bool → A
  pub wire : A → ℕ

-- `boundaries[i]`, 0 when out of range
unfoldable pub boundary : List ℕ → ℕ → ℕ
boundary [] i = 0
boundary (b ∷ bs) zero = b
boundary (b ∷ bs) (suc i) = boundary bs i

-- The loop of fitText, on fuel: where it stops.
unfoldable pub search_cut : (ℕ → Bool) → ℕ → ℕ → ℕ → ℕ
search_cut fits zero low high = low
search_cut fits (suc fuel) low high =
    let mid = low + (high - low + 1) / 2 in
    let range : ℕ × ℕ = if fits mid then (mid, high) else (low, mid - 1) in
    let rest = search_cut fits fuel range.0 range.1 in if ltb low high then rest else low

module _ {A : Type 0} (f : Fitting A) (limit : ℕ) (text : Bytes) where
  abbrev pub boundaries : List ℕ
  boundaries = f.starts (f.to_valid text) ++ (length (f.to_valid text) ∷ [])

  abbrev pub candidate : ℕ → A
  candidate mid = f.build (take (boundary boundaries mid) (f.to_valid text)) true

  abbrev pub fits_at : ℕ → Bool
  fits_at mid = leb (f.wire (candidate mid)) limit

  abbrev pub last_boundary : ℕ
  last_boundary = length boundaries - 1

  unfoldable pub cut_point : ℕ
  cut_point = search_cut fits_at last_boundary 0 last_boundary

  unfoldable pub fit_text : Result ToolError A
  fit_text =
      if leb (f.wire (f.build (f.to_valid text) false)) limit
      then ok (f.build (f.to_valid text) false)
      else bounded f.wire limit (candidate cut_point)

-- What the search promises of the place where it stops.
pub record Stops (fits : ℕ → Bool) (low high r : ℕ) : Type 0 where
  pub above : low ≤ r
  pub below : r ≤ high
  pub good : (r ≡ low) ⊎ (fits r ≡ true)
  pub next : (r ≡ high) ⊎ (fits (suc r) ≡ false)

half_le : (n : ℕ) → 1 ≤ n → (1 ≤ (n + 1) / 2) × ((n + 1) / 2 ≤ n)
half_le n h = omega arith

search_cut_lem :
    (fits : ℕ → Bool) (fuel low high : ℕ)
    → low ≤ high
    → high ≤ low + fuel
    → Stops fits low high (search_cut fits fuel low high)
unfolding search_cut
search_cut_lem fits zero low high le enough = record {
  above = omega arith;
  below = omega arith;
  good = inl refl;
  next = inl (omega arith);
}
search_cut_lem fits (suc fuel) low high le enough =
    let mid = low + (high - low + 1) / 2 in
    if_intro (Stops fits low high) (ltb low high) _ _
      (λ b.
        let half = half_le (high - low) (ground arith) in
        if_intro (λ (range : ℕ × ℕ). Stops fits low high (search_cut fits fuel range.0 range.1))
          (fits mid) (mid, high) (low, mid - 1)
          (λ c.
            let up = search_cut_lem fits fuel mid high (omega arith) (omega arith) in
            record {
              above = omega (arith, up.above);
              below = up.below;
              good =
                  inr (elim up.good [ inl e ↦ subst (λ k. fits k ≡ true) (sym e) c | inr g ↦ g ]);
              next = up.next;
            })
          (λ c.
            let down = search_cut_lem fits fuel low (mid - 1) (omega arith) (omega arith) in
            record {
              above = down.above;
              below = omega (arith, down.below);
              good = down.good;
              next = inr (elim down.next [
                | inl e ↦ subst (λ k. fits k ≡ false) (omega (arith, e)) c
                | inr g ↦ g
              ]);
            }))
      (λ b. record { above = omega arith; below = le; good = inl refl; next = inl (ground arith) })

-- Where fitText stops, the next longer prefix no longer fits, or there is none; and the prefix
-- itself fits, or it is the empty one.
pub cut_point_lem :
    {A : Type 0} (f : Fitting A) (limit : ℕ) (text : Bytes)
    → Stops (fits_at f limit text) 0 (last_boundary f limit text) (cut_point f limit text)
unfolding cut_point
cut_point_lem f limit text =
    search_cut_lem (fits_at f limit text) (last_boundary f limit text) 0
      (last_boundary f limit text) (omega arith) (omega arith)

-- What fitText may answer with: a value that fits, which is the whole text, or marks what is left
-- of it as shortened, where the next longer prefix would not fit.
pub record Fitted {A : Type 0} (f : Fitting A) (limit : ℕ) (text : Bytes) (v : A) : Type 0 where
  pub fits : f.wire v ≤ limit
  pub what :
      (v ≡ f.build (f.to_valid text) false) ⊎ (v ≡ candidate f limit text (cut_point f limit text))
  pub longest : Stops (fits_at f limit text) 0 (last_boundary f limit text) (cut_point f limit text)

abbrev pub FitOutcome : {A : Type 0} → Fitting A → ℕ → Bytes → Result ToolError A → Type 0
FitOutcome f limit text (ok v) = Fitted f limit text v
FitOutcome f limit text (err e) = limit < f.wire (candidate f limit text 0)

-- fitText answers with a value that fits: the whole text, or its part up to the place where the
-- search stops, after which the next longer part does not fit; it fails only if the empty part
-- does not fit either.
pub fit_text_lem :
    {A : Type 0} (f : Fitting A) (limit : ℕ) (text : Bytes)
    → FitOutcome f limit text (fit_text f limit text)
unfolding fit_text
fit_text_lem f limit text =
    let stops = cut_point_lem f limit text in
    if_intro (FitOutcome f limit text) (leb (f.wire (f.build (f.to_valid text) false)) limit) _ _
      (λ b. record { fits = ground arith; what = inl refl; longest = stops })
      (λ b.
        if_intro (FitOutcome f limit text)
          (ltb limit (f.wire (candidate f limit text (cut_point f limit text)))) _ _
          (λ c. elim stops.good [
            | inl e ↦
                subst (λ k. limit < f.wire (candidate f limit text k)) e
                  (ltb→lt limit (f.wire (candidate f limit text (cut_point f limit text))) c)
            | inr g ↦ absurd (ground arith)
          ])
          (λ c. record { fits = ground arith; what = inr refl; longest = stops }))

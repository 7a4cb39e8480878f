-- ===== src/Mcp/Search/Shape.antt =====
-- What filtering, cutting and trimming a list of items does to it.
use soft_ue_index.Base.{
  ℕ, ◌+◌, ◌≤◌, ◌≡◌, refl, Bool, true, false, List, [], ◌∷◌, length, arith, ltb, All, Bool-cases,
  inl, inr, ◌⊎◌,
}
use soft_ue_index.Mcp.Search.{filter_items, trim, cut, only_scoped}
use soft_ue_index.Base.{All-take, if_intro, length-take}

-- A result either says that it is truncated, or it is what it was made from.
abbrev pub Told {ℓ} : {A : Type ℓ} → List A × Bool → List A × Bool → Type ℓ
Told (out, t) (items, truncated) = (t ≡ true) ⊎ ((out ≡ items) × (t ≡ false) × (truncated ≡ false))

abbrev pub total : {A : Type 0} → (A → ℕ) → List A → ℕ
total size [] = 0
total size (v ∷ rest) = size v + total size rest

module _ {A : Type 0} (keep : A → Bool) where
  pub filter_items-All :
      (items : List A) (truncated : Bool)
      → All (λ v. keep v ≡ true) (filter_items keep items truncated).0
  unfolding filter_items
  filter_items-All [] truncated = tt
  filter_items-All (v ∷ rest) truncated =
      let rest_kept = filter_items-All rest truncated in
      if_intro (λ (o : List A × Bool). All (λ v. keep v ≡ true) o.0) (keep v) _ _
        (λ b. (b, rest_kept)) (λ b. rest_kept)

  pub filter_items-Told :
      (items : List A) (truncated : Bool)
      → Told (filter_items keep items truncated) (items, truncated)
  unfolding filter_items
  filter_items-Told [] truncated = elim (Bool-cases truncated) [
    | inl e ↦ inl e
    | inr e ↦ inr (refl, e, e)
  ]
  filter_items-Told (v ∷ rest) truncated = ground (arith, filter_items-Told rest truncated)

  pub length-filter_items :
      (items : List A) (truncated : Bool)
      → length (filter_items keep items truncated).0 ≤ length items
  unfolding filter_items
  length-filter_items [] truncated = omega arith
  length-filter_items (v ∷ rest) truncated = ground (arith, length-filter_items rest truncated)

module _ {A : Type 0} (keep : A → Bool) (P : A → Type 0) where
  pub filter_items-keeps :
      (items : List A) (truncated : Bool)
      → All P items
      → All P (filter_items keep items truncated).0
  unfolding filter_items
  filter_items-keeps [] truncated h = tt
  filter_items-keeps (v ∷ rest) truncated h =
      let rest_kept = filter_items-keeps rest truncated h.1 in
      if_intro (λ (o : List A × Bool). All P o.0) (keep v) _ _ (λ b. (h.0, rest_kept))
        (λ b. rest_kept)

module _ {A : Type 0} (keep : A → Bool) where
  pub only_scoped-All : (items : List A) → All (λ v. keep v ≡ true) (only_scoped keep items)
  unfolding only_scoped
  only_scoped-All [] = tt
  only_scoped-All (v ∷ rest) =
      let rest_kept = only_scoped-All rest in
      if_intro (λ (o : List A). All (λ v. keep v ≡ true) o) (keep v) _ _ (λ b. (b, rest_kept))
        (λ b. rest_kept)

module _ {A : Type 0} (size : A → ℕ) (max : ℕ) where
  -- the size of what is left fits, after `used`
  pub total-trim :
      (used : ℕ) (items : List A) (truncated : Bool)
      → used ≤ max
      → used + total size (trim size max used items truncated).0 ≤ max
  unfolding trim
  total-trim used [] truncated h = omega arith
  total-trim used (v ∷ rest) truncated h = elim (Bool-cases (ltb max (used + size v))) [
    | inl over ↦ rw over (omega arith)
    | inr fits ↦ rw fits (omega (arith, total-trim (used + size v) rest truncated (ground arith)))
  ]

  pub trim-Told :
      (used : ℕ) (items : List A) (truncated : Bool)
      → Told (trim size max used items truncated) (items, truncated)
  unfolding trim
  trim-Told used [] truncated = elim (Bool-cases truncated) [
    | inl e ↦ inl e
    | inr e ↦ inr (refl, e, e)
  ]
  trim-Told used (v ∷ rest) truncated = ground (arith, trim-Told (used + size v) rest truncated)

  pub length-trim :
      (used : ℕ) (items : List A) (truncated : Bool)
      → length (trim size max used items truncated).0 ≤ length items
  unfolding trim
  length-trim used [] truncated = omega arith
  length-trim used (v ∷ rest) truncated = ground (arith, length-trim (used + size v) rest truncated)

module _ {A : Type 0} (size : A → ℕ) (max : ℕ) (P : A → Type 0) where
  pub trim-keeps :
      (used : ℕ) (items : List A) (truncated : Bool)
      → All P items
      → All P (trim size max used items truncated).0
  unfolding trim
  trim-keeps used [] truncated h = tt
  trim-keeps used (v ∷ rest) truncated h =
      let rest_kept = trim-keeps (used + size v) rest truncated h.1 in
      if_intro (λ (o : List A × Bool). All P o.0) (ltb max (used + size v)) _ _ (λ b. tt)
        (λ b. (h.0, rest_kept))

module _ {A : Type 0} where
  pub cut-Told :
      (max : ℕ) (items : List A) (truncated : Bool)
      → Told (cut max items truncated) (items, truncated)
  cut-Told max items truncated = ground arith

  pub length-cut :
      (max : ℕ) (items : List A) (truncated : Bool) → length (cut max items truncated).0 ≤ max
  length-cut max items truncated = ground (arith, length-take max items)

  pub cut-keeps :
      (P : A → Type 0) (max : ℕ) (items : List A) (truncated : Bool)
      → All P items
      → All P (cut max items truncated).0
  cut-keeps P max items truncated h =
      if_intro (λ (o : List A × Bool). All P o.0) (ltb max (length items)) _ _
        (λ b. All-take P max items h) (λ b. h)

  pub Told-trans : (a b c : List A × Bool) → Told a b → Told b c → Told a c
  Told-trans a b c h k = ground arith

-- ===== src/Lsp/Documents/Opened.antt =====
-- What ensureDocumentOpen opens.
use soft_ue_index.Base.{
  ℕ, suc, Bool, true, false, not, ◌≤◌, ◌≡◌, refl, sym, ap, Bool-cases, inl, inr, if_true, if_false,
  ◌∙◌, subst, Option, some, none, [], length, ltb, arith, ◌&&◌,
}
use soft_ue_index.Base.Text.{Bytes, str, eqb, eqb_iff, is_empty}
use soft_ue_index.Base.Result.{Result, ok, err, through, unless_ok}
use soft_ue_index.Lsp.Documents.{
  DocumentError, not_local, drop_slash, local_path, max_index_seed_bytes, not_regular, too_large,
  Files, document_text,
}

not_above : (a b : ℕ) → ltb a b ≡ false → b ≤ a
not_above a b h = ground arith

is_true : (b : Bool) → not b ≡ false → b ≡ true
is_true true h = refl
is_true false h = cc

-- The text of a local regular file: of the path in the URI, without the slash before a drive.
pub record Opened (os : Files) (uri text : Bytes) : Type 0 where
  pub raw : Bytes
  pub size : ℕ
  pub parsed : os.parse uri ≡ some (str "file", [], raw)
  pub regular : os.stat (drop_slash (os.from_slash raw)) ≡ ok (true, size)
  pub known_size : size ≤ max_index_seed_bytes
  pub content : os.read (drop_slash (os.from_slash raw)) (suc max_index_seed_bytes) ≡ ok text
  pub small : length text ≤ max_index_seed_bytes

parts :
    {a b c d : Bytes} (raw : Bytes)
    → a ≡ c
    → b ≡ d
    → ◌≡◌ {A = Option (Bytes × Bytes × Bytes)} (some (a, b, raw)) (some (c, d, raw))
parts raw e f = cc

is_nothing : (s : Bytes) → is_empty s ≡ true → s ≡ []
is_nothing s h = ground arith

local_path_lem :
    (os : Files) (o : Option (Bytes × Bytes × Bytes)) {path : Bytes}
    → local_path os o ≡ ok path
    → (raw : Bytes) × (o ≡ some (str "file", [], raw)) × (path ≡ drop_slash (os.from_slash raw))
local_path_lem os none h = absurd cc
local_path_lem os (some (scheme, host, raw)) {path} h =
    elim (Bool-cases (eqb scheme (str "file") && is_empty host)) [
      | inl b ↦
          (let both : (scheme ≡ str "file") × (host ≡ []) = (
            ground (arith, b, eqb_iff scheme (str "file")),
            is_nothing host (ground (arith, b)),
          ) in
            let same : ◌≡◌ {A = Result DocumentError Bytes} (ok (drop_slash (os.from_slash raw)))
                (ok path) =
              sym (if_true _ _ _ b) ∙ h in
            (raw, parts raw both.0 both.1, cc))
      | inr b ↦
          (let wrong : ◌≡◌ {A = Result DocumentError Bytes} (err not_local) (ok path) =
              sym (if_false _ _ _ b) ∙ h in
            absurd cc)
    ]

-- The text that is opened is what was read of the file at the path of the URI, a local one, which
-- was a regular file of at most 4 MiB when it was looked at; and the text is at most 4 MiB, also
-- when the file has grown since.
pub document_text_bound :
    (os : Files) (uri : Bytes) {text : Bytes} → document_text os uri ≡ ok text → Opened os uri text
unfolding document_text
document_text_bound os uri {text} h =
    let (path, found, h1) = through (local_path os (os.parse uri)) _ h in
    let (info, known, h2) = through (os.stat path) _ h1 in
    let (regular, h3) = unless_ok (not info.0) not_regular _ h2 in
    let (sized, h4) = unless_ok (ltb max_index_seed_bytes info.1) too_large _ h3 in
    let (read, is_read, h5) = through (os.read path (suc max_index_seed_bytes)) _ h4 in
    let (small, h6) = unless_ok (ltb max_index_seed_bytes (length read)) too_large _ h5 in
    let same : read ≡ text = cc in
    let (raw, parsed, at_path) = local_path_lem os (os.parse uri) found in
    subst (Opened os uri) same (record {
      raw = raw;
      size = info.1;
      parsed = parsed;
      regular =
          ap os.stat (sym at_path) ∙ known ∙ ap (λ b. ok (b, info.1)) (is_true info.0 regular);
      known_size = not_above _ _ sized;
      content = ap (λ p. os.read p (suc max_index_seed_bytes)) (sym at_path) ∙ is_read;
      small = not_above _ _ small;
    })

-- ===== src/Fragment/Marker.antt =====
-- The marker that was written is the marker that is read.
use soft_ue_index.Base.{
  ◌≡◌, refl, Bool, true, false, not, ◌&&◌, some, none, [], ◌∷◌, ◌++◌, append_assoc, length, drop,
  All, All-append, arith, ◌==◌, if◌then◌else◌, ap, sym, ◌∙◌,
}
use soft_ue_index.Base.Text.{Bytes, str, has_prefix}
use soft_ue_index.Fragment.{
  marker_prefix, owner_field, newline, first_line, cut_at, is_space, trim_space, key_and_owner,
  parse_fragment_marker, body, fragment_content, trim_left, trim_right,
}

-- a text without white space, such as a digest
abbrev pub NoSpace : Bytes → Type 0
NoSpace s = All (λ c. is_space c ≡ false) s

abbrev pub OneLine : Bytes → Type 0
OneLine s = All (λ c. (c == newline) ≡ false) s

first_line-append : (s t : Bytes) → OneLine s → first_line (s ++ (newline ∷ t)) ≡ s
unfolding first_line
first_line-append [] t h = refl
first_line-append (c ∷ s) t h = ground (arith, first_line-append s t h.1)

has_prefix-append : (p s : Bytes) → has_prefix (p ++ s) p ≡ true
unfolding has_prefix
has_prefix-append [] s = ground arith
has_prefix-append (c ∷ p) s = ground (arith, has_prefix-append p s)

drop-append : (p s : Bytes) → drop (length p) (p ++ s) ≡ s
drop-append [] s = refl
drop-append (c ∷ p) s = drop-append p s

cut_at-owner :
    (key owner : Bytes)
    → NoSpace key
    → cut_at owner_field (key ++ (owner_field ++ owner)) ≡ some (key, owner)
unfolding cut_at str has_prefix is_space
cut_at-owner [] owner h = refl
cut_at-owner (c ∷ key) owner h = ground (arith, h.0, cut_at-owner key owner h.1)

NoSpace-OneLine : (s : Bytes) → NoSpace s → OneLine s
unfolding is_space
NoSpace-OneLine [] h = tt
NoSpace-OneLine (c ∷ s) h = (ground (arith, h.0), NoSpace-OneLine s h.1)

trim_left-NoSpace : (s : Bytes) → NoSpace s → trim_left s ≡ s
unfolding trim_left
trim_left-NoSpace [] h = refl
trim_left-NoSpace (c ∷ s) h = ground (arith, h.0)

trim_right-NoSpace : (s : Bytes) → NoSpace s → trim_right s ≡ s
unfolding trim_right
trim_right-NoSpace [] h = refl
trim_right-NoSpace (c ∷ []) h = ground (arith, h.0)
trim_right-NoSpace (c ∷ d ∷ s) h = rw (trim_right-NoSpace (d ∷ s) h.1, trim_right) refl

head : Bytes → Bytes → Bytes
head key owner = marker_prefix ++ (key ++ (owner_field ++ owner))

content-head :
    (index_path key owner : Bytes)
    → fragment_content index_path key owner ≡ head key owner ++ (newline ∷ body index_path)
unfolding fragment_content head
content-head index_path key owner = sym (
    append_assoc marker_prefix (key ++ (owner_field ++ owner)) (newline ∷ body index_path)
    ∙ ap (λ t. marker_prefix ++ t)
        (append_assoc key (owner_field ++ owner) (newline ∷ body index_path)
          ∙ ap (λ t. key ++ t) (append_assoc owner_field owner (newline ∷ body index_path))))

unfoldable one_line : Bytes → Bool
one_line [] = true
one_line (c ∷ s) = not (c == newline) && one_line s

one_line-OneLine : (s : Bytes) → one_line s ≡ true → OneLine s
unfolding one_line
one_line-OneLine [] h = tt
one_line-OneLine (c ∷ s) h = (ground arith, one_line-OneLine s (ground arith))

head-OneLine : (key owner : Bytes) → NoSpace key → OneLine owner → OneLine (head key owner)
unfolding head str one_line
head-OneLine key owner k o =
    All-append (λ c. (c == newline) ≡ false) marker_prefix (key ++ (owner_field ++ owner))
      (one_line-OneLine marker_prefix refl)
      (All-append (λ c. (c == newline) ≡ false) key (owner_field ++ owner) (NoSpace-OneLine key k)
        (All-append (λ c. (c == newline) ≡ false) owner_field owner
          (one_line-OneLine owner_field refl) o))

rest_parsed :
    (key owner : Bytes)
    → trim_space key ≡ key
    → trim_space owner ≡ owner
    → NoSpace key
    → (if has_prefix (head key owner) marker_prefix
        then key_and_owner (cut_at owner_field (drop (length marker_prefix) (head key owner)))
        else none)
      ≡ some (key, owner)
unfolding head
rest_parsed key owner a b k =
    rw
      (
        has_prefix-append marker_prefix (key ++ (owner_field ++ owner)),
        drop-append marker_prefix (key ++ (owner_field ++ owner)),
        cut_at-owner key owner k,
        a,
        b,
      )
      refl

-- What fragmentContent wrote, parseFragmentMarker reads: the key and the owner, if the key is
-- without white space and the owner is one line that TrimSpace leaves as it is.
pub parse_fragment_marker-fragment_content :
    (index_path key owner : Bytes)
    → NoSpace key
    → OneLine owner
    → trim_space owner ≡ owner
    → parse_fragment_marker (fragment_content index_path key owner) ≡ some (key, owner)
unfolding parse_fragment_marker
parse_fragment_marker-fragment_content index_path key owner k o t =
    let line : first_line (fragment_content index_path key owner) ≡ head key owner =
      ap first_line (content-head index_path key owner)
      ∙ first_line-append (head key owner) (body index_path) (head-OneLine key owner k o) in
    let key_same : trim_space key ≡ key =
      ap trim_right (trim_left-NoSpace key k) ∙ trim_right-NoSpace key k in
    rw line (rest_parsed key owner key_same t k)

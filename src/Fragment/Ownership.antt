-- ===== src/Fragment/Ownership.antt =====
-- Who may replace the fragment of an engine.
use soft_ue_index.Base.{
  ◌≡◌, refl, sym, ap, ◌∙◌, true, false, ◌&&◌, ◌==◌, Bool-cases, inl, inr, if_true, if_false, [],
  ◌∷◌, ◌||◌, Option, some, none, arith, if◌then◌else◌,
}
use soft_ue_index.Base.Text.{Bytes, eqb, has_prefix}
use soft_ue_index.Fragment.{
  parse_fragment_marker, fragment_content, trim_space, marker_prefix, newline, first_line,
  first_error, hand_written, FragmentError, other_project, write_fragment,
}
use soft_ue_index.Fragment.Marker.{NoSpace, OneLine, parse_fragment_marker-fragment_content}

-- If the file can be read and written, `old_key` is without white space and `old_owner` is one line
-- that TrimSpace leaves as it is, then this is what a write by `owner` does to the fragment that
-- `old_owner` wrote under `old_key`: the same key or the same owner replaces it, and anyone else is
-- told whose it is and leaves it.
pub write_fragment-shared :
    (old_path old_key old_owner path key owner : Bytes)
    → NoSpace old_key
    → OneLine old_owner
    → trim_space old_owner ≡ old_owner
    → write_fragment none none path key owner (some (fragment_content old_path old_key old_owner))
      ≡ (if eqb old_key key || eqb old_owner owner
          then (none, some (fragment_content path key owner))
          else (
            some (other_project old_owner old_key),
            some (fragment_content old_path old_key old_owner),
          ))
unfolding write_fragment
write_fragment-shared old_path old_key old_owner path key owner k o t =
    rw (parse_fragment_marker-fragment_content old_path old_key old_owner k o t) (ground arith)

-- What a prefix of the first line is, is a prefix of the text.
has_prefix-first_line :
    (s prefix : Bytes) → has_prefix (first_line s) prefix ≡ true → has_prefix s prefix ≡ true
unfolding has_prefix first_line
has_prefix-first_line s [] h = refl
has_prefix-first_line [] (b ∷ prefix) h = h
has_prefix-first_line (c ∷ s) (b ∷ prefix) h = elim (Bool-cases (c == newline)) [
  | inl e ↦ absurd (not_both (sym (ap (λ t. has_prefix t (b ∷ prefix)) (if_true _ _ _ e)) ∙ h))
  | inr e ↦
      (let later : ((c == b) && has_prefix (first_line s) prefix) ≡ true =
          sym (ap (λ t. has_prefix t (b ∷ prefix)) (if_false _ _ _ e)) ∙ h in
        ground (arith, later, has_prefix-first_line s prefix))
]
  where
    not_both : false ≡ true → ⊥
    not_both e = cc

-- A file that does not start with the marker is never replaced: the error is the one of reading it,
-- or says that it was written by hand.
pub write_fragment-foreign :
    (path key owner contents : Bytes) (read_fails write_fails : Option FragmentError)
    → has_prefix contents marker_prefix ≡ false
    → write_fragment read_fails write_fails path key owner (some contents)
      ≡ (first_error read_fails (some hand_written), some contents)
unfolding write_fragment parse_fragment_marker
write_fragment-foreign path key owner contents read_fails write_fails h =
    on_line (ground (arith, h, has_prefix-first_line contents marker_prefix)) read_fails
  where
    on_line :
        has_prefix (first_line contents) marker_prefix ≡ false
        → (read_fails : Option FragmentError)
        → write_fragment read_fails write_fails path key owner (some contents)
          ≡ (first_error read_fails (some hand_written), some contents)
    on_line b none = rw b refl
    on_line b (some e) = refl

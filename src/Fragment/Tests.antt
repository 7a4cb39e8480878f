-- ===== src/Fragment/Tests.antt =====
-- Fragments of two projects that share an engine, and one written by hand.
use soft_ue_index.Base.{◌≡◌, refl, false, ◌||◌, some, none, if◌then◌else◌}
use soft_ue_index.Base.Text.{str, eqb, has_prefix}
use soft_ue_index.Fragment.{
  parse_fragment_marker, fragment_content, is_space, trim_left, trim_right, other_project,
  hand_written, marker_prefix, write_fragment,
}
use soft_ue_index.Fragment.Marker.{parse_fragment_marker-fragment_content}
use soft_ue_index.Fragment.Ownership.{write_fragment-shared, write_fragment-foreign}

parse_fragment_marker-fragment_content_example :
    parse_fragment_marker (fragment_content (str "d") (str "k1") (str "my game"))
    ≡ some (str "k1", str "my game")
unfolding str is_space trim_left trim_right
parse_fragment_marker-fragment_content_example =
    parse_fragment_marker-fragment_content (str "d") (str "k1") (str "my game") (refl, (refl, tt))
      (refl, (refl, (refl, (refl, (refl, (refl, (refl, tt))))))) refl

write_fragment-shared_example :
    write_fragment none none
      (str "e")
      (str "k2")
      (str "b")
      (some (fragment_content (str "d") (str "k1") (str "a")))
    ≡ (if eqb (str "k1") (str "k2") || eqb (str "a") (str "b")
        then (none, some (fragment_content (str "e") (str "k2") (str "b")))
        else (
          some (other_project (str "a") (str "k1")),
          some (fragment_content (str "d") (str "k1") (str "a")),
        ))
unfolding str is_space trim_left trim_right
write_fragment-shared_example =
    write_fragment-shared (str "d") (str "k1") (str "a") (str "e") (str "k2") (str "b")
      (refl, (refl, tt)) (refl, tt) refl

by_hand : has_prefix (str "CompileFlags:") marker_prefix ≡ false
unfolding str has_prefix
by_hand = refl

write_fragment-foreign_example :
    write_fragment none none (str "e") (str "k2") (str "b") (some (str "CompileFlags:"))
    ≡ (some hand_written, some (str "CompileFlags:"))
write_fragment-foreign_example =
    write_fragment-foreign (str "e") (str "k2") (str "b") (str "CompileFlags:") none none by_hand

-- ===== src/Compdb/Validate/Tests.antt =====
-- A database with one unit of the project `p` and one of the engine `e`. A path is a byte for each of
-- its names.
use soft_ue_index.Base.{
  ◌≡◌, refl, Bool, true, false, Option, some, none, List, [], ◌∷◌, ◌++◌, ◌==◌, ◌||◌, if◌then◌else◌,
}
use soft_ue_index.Base.Text.{Bytes, str, eqb, has_prefix}
use soft_ue_index.Base.Result.{ok, err}
use soft_ue_index.Compdb.Entries.{DatabaseEntry}
use soft_ue_index.Compdb.Rider.Modules.{sort_by, insert_by, text_before}
use soft_ue_index.Compdb.CommandLine.{
  split_command, split_from, trim_quotes_left, trim_quotes_right,
}
use soft_ue_index.Compdb.Validate.{
  Destination, Tree, DatabaseText, Promotion, not_written, no_response, insufficient_coverage,
  joined, lines_of, check_responses, validate_entry, validate_items, validate_database,
  validate_and_promote,
}

abbrev under : Bytes → Bytes → Option Bytes
under (r ∷ root) (c ∷ s) = if r == c then some s else none
under _ _ = none

abbrev tree : Tree
tree = record {
  abs = some;
  eval_symlinks = λ path. none;
  clean = λ path. path;
  rel = under;
  is_abs = λ path. has_prefix path (str "p") || has_prefix path (str "e");
  join = λ a b. a ++ b;
  to_slash = λ path. path;
  separator = str "/";
  is_regular = λ path. true;
  exists = λ path. eqb path (str "prsp");
  hash = λ text. text;
}

abbrev entry : Bytes → Bytes → DatabaseEntry
entry file command = record { directory = str "p"; file = file; command = command; arguments = [] }

abbrev text : List (Option DatabaseEntry) → DatabaseText
text items = record { is_array = true; items = items; is_closed = true; is_whole = true }

abbrev both : List (Option DatabaseEntry)
both = some (entry (str "pb") (str "cl 'a b' @rsp")) ∷ some (entry (str "ea") (str "cl")) ∷ []

abbrev placed : Bytes → Destination
placed contents = record { database = some contents; temporary = none }

abbrev before : Destination
before = placed (str "old")

abbrev steps : Bool → Promotion
steps moved = record {
  make_destination = true;
  create_temporary = true;
  copy = λ staged. (staged, true);
  replace = moved;
  decode = λ staged. some (text both);
}

split_quoted : split_command (str "cl 'a b' \"c\"d") ≡ str "cl" ∷ str "a b" ∷ str "cd" ∷ []
unfolding split_command split_from str
split_quoted = refl

no_such_response :
    validate_entry tree (str "p") (str "e") (entry (str "pb") (str "cl @x"))
    ≡ err (no_response (str "@x"))
unfolding validate_entry split_command split_from check_responses trim_quotes_left trim_quotes_right
    str eqb has_prefix
no_such_response = refl

one_root_only :
    validate_database tree
      (str "p")
      (str "e")
      (some (text (some (entry (str "pb") (str "cl")) ∷ [])))
    ≡ err insufficient_coverage
unfolding validate_database validate_items validate_entry split_command split_from check_responses
    joined str eqb has_prefix
one_root_only = refl

promoted : validate_and_promote tree (steps true) (str "p") (str "e") (str "new") before ≡ (
  ok (record {
    project_translation_units = 1;
    engine_translation_units = 1;
    fingerprint = lines_of (
        joined (str "ea" ∷ str "cl" ∷ [])
        ∷ joined (str "pb" ∷ str "cl" ∷ str "a b" ∷ str "@rsp" ∷ [])
        ∷ []);
  }),
  placed (str "new"),
)
unfolding validate_and_promote validate_database validate_items validate_entry split_command
    split_from check_responses trim_quotes_left trim_quotes_right joined lines_of sort_by insert_by
    text_before str eqb has_prefix
promoted = refl

not_moved :
    validate_and_promote tree (steps false) (str "p") (str "e") (str "new") before
    ≡ (err not_written, before)
unfolding validate_and_promote validate_database validate_items validate_entry split_command
    split_from check_responses trim_quotes_left trim_quotes_right str eqb has_prefix
not_moved = refl

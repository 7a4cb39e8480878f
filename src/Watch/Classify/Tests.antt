-- ===== src/Watch/Classify/Tests.antt =====
-- Events on a source file and on a rule file, and a path below a generated directory.
use soft_ue_index.Base.{◌≡◌, ◌↔◌, refl, true, false}
use soft_ue_index.Base.Text.{Bytes, str, eqb, has_suffix, has_prefix, one_of, to_lower, lower_byte}
use soft_ue_index.Watch.Classify.{
  PathNames, FileOp, requires_comp_db, is_rule_file, is_source_file, ignored_directory, any_ignored,
  split, Generated, Component, ignored_directory_iff,
}

-- names without directories, all with the extension of C++ sources
abbrev flat : PathNames
flat = record { slash = λ p. p; base = λ p. p; ext = λ p. str ".CPP" }

abbrev edit : FileOp
edit = record { create = false; write = true; remove = false; rename = false; chmod = false }

abbrev creation : FileOp
creation = record { create = true; write = false; remove = false; rename = false; chmod = false }

created : requires_comp_db flat (str "A.cpp") creation ≡ true
unfolding requires_comp_db is_rule_file is_source_file str eqb has_suffix has_prefix one_of to_lower
    lower_byte
created = refl

edited : requires_comp_db flat (str "A.cpp") edit ≡ false
unfolding requires_comp_db is_rule_file is_source_file str eqb has_suffix has_prefix one_of to_lower
    lower_byte
edited = refl

generated : ignored_directory flat (str "a/Saved/b") ≡ true
unfolding ignored_directory any_ignored split str eqb one_of to_lower lower_byte
generated = refl

ignored_directory_iff_example :
    (ignored_directory flat (str "a/Saved/b") ≡ true)
    ↔ ((name : Bytes) × Generated name × Component name (to_lower (str "a/Saved/b")))
ignored_directory_iff_example = ignored_directory_iff flat (str "a/Saved/b")

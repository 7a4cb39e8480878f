-- ===== src/Compdb/CommandLine.antt =====
-- internal/compdb/validate.go: the words of a command line.
use soft_ue_index.Base.{ℕ, Bool, List, [], ◌∷◌, ◌++◌, ◌==◌, ◌&&◌, ◌||◌, if◌then◌else◌}
use soft_ue_index.Base.Text.{Bytes, is_empty}

-- one byte of splitCommand's loop: the words so far, the current one, and the open quote, 0 for none
pub record Splitting : Type 0 where
  pub words : List Bytes
  pub current : Bytes
  pub quote : ℕ

abbrev pub end_word : Splitting → Splitting
end_word s =
    if is_empty s.current then s else record s { words = s.words ++ (s.current ∷ []); current = [] }

abbrev pub is_quote : ℕ → Bool
is_quote c = c == 39 || c == 34

abbrev pub split_byte : ℕ → Splitting → Splitting
split_byte c s =
    if is_quote c && s.quote == 0
    then record s { quote = c }
    else if is_quote c && s.quote == c
    then record s { quote = 0 }
    else if (c == 32 || c == 9) && s.quote == 0
    then end_word s
    else record s { current = s.current ++ (c ∷ []) }

unfoldable pub split_from : Splitting → Bytes → Splitting
split_from s [] = end_word s
split_from s (c ∷ rest) = split_from (split_byte c s) rest

unfoldable pub split_command : Bytes → List Bytes
split_command command = (split_from (record { words = []; current = []; quote = 0 }) command).words

-- strings.Trim with a quote as its set
unfoldable pub trim_quotes_left : Bytes → Bytes
trim_quotes_left [] = []
trim_quotes_left (c ∷ s) = let rest = trim_quotes_left s in if c == 34 then rest else c ∷ s

unfoldable pub trim_quotes_right : Bytes → Bytes
trim_quotes_right [] = []
trim_quotes_right (c ∷ s) =
    let rest = trim_quotes_right s in if (c == 34) && is_empty rest then [] else c ∷ rest

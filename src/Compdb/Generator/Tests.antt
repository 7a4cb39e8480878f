-- ===== src/Compdb/Generator/Tests.antt =====
-- Three Writes to a buffer of five bytes, and a command line with the defaults.
use soft_ue_index.Base.{◌≡◌, refl, [], ◌∷◌, ◌++◌, take}
use soft_ue_index.Base.Text.{str}
use soft_ue_index.Compdb.Generator.{
  or_text, buffer_write, buffer_writes, all_output, buffer_writes-take,
}

captured : buffer_writes 5 [] (str "abc" ∷ str "def" ∷ str "g" ∷ []) ≡ str "abcde"
unfolding buffer_writes buffer_write str
captured = refl

default_platform : or_text [] (str "Win64") ≡ str "Win64"
default_platform = refl

buffer_writes-take_example :
    buffer_writes 5 (take 5 []) (str "abc" ∷ str "def" ∷ str "g" ∷ [])
    ≡ take 5 ([] ++ all_output (str "abc" ∷ str "def" ∷ str "g" ∷ []))
buffer_writes-take_example = buffer_writes-take 5 [] (str "abc" ∷ str "def" ∷ str "g" ∷ [])

-- ===== src/Compdb/Generator.antt =====
-- internal/compdb/generator.go: the command line of UnrealBuildTool and the bounded buffer for its
-- output.
mod Tests
use soft_ue_index.Base.{
  min, append_assoc, ℕ, ◌-◌, ◌≤◌, ◌≡◌, refl, sym, ap, ◌∙◌, false, List, [], ◌∷◌, ◌++◌, length, take,
  take-append, take_whole, ltb, if◌then◌else◌, if_intro, arith, length-take, append-nil,
}
use soft_ue_index.Base.Text.{Bytes, str}

pub record GeneratorInput : Type 0 where
  pub dot_net : Bytes
  pub ubt_dll : Bytes
  pub uproject : Bytes
  pub target : Bytes
  pub output_dir : Bytes
  pub configuration : Bytes
  pub platform : Bytes

pub record Command : Type 0 where
  pub executable : Bytes
  pub args : List Bytes

abbrev pub or_text : Bytes → Bytes → Bytes
or_text [] d = d
or_text (c ∷ s) d = c ∷ s

unfoldable pub build_command : GeneratorInput → Command
build_command input = record {
  executable = input.dot_net;
  args =
      input.ubt_dll
      ∷ str "-Mode=GenerateClangDatabase"
      ∷ input.target
      ∷ or_text input.platform (str "Win64")
      ∷ or_text input.configuration (str "Development")
      ∷ str "-Compiler=Clang"
      ∷ str "-NoExecCodeGenActions"
      ∷ (str "-Project=" ++ input.uproject)
      ∷ (str "-OutputDir=" ++ input.output_dir)
      ∷ str "-OutputFilename=compile_commands.json"
      ∷ [];
}

-- boundedBuffer.Write: the buffer after it
unfoldable pub buffer_write : ℕ → Bytes → Bytes → Bytes
buffer_write limit held p =
    let remaining = limit - length held in
    if ltb 0 remaining
    then (if ltb remaining (length p) then held ++ take remaining p else held ++ p)
    else held

unfoldable pub buffer_writes : ℕ → Bytes → List Bytes → Bytes
buffer_writes limit held [] = held
buffer_writes limit held (p ∷ rest) = buffer_writes limit (buffer_write limit held p) rest

unfoldable pub all_output : List Bytes → Bytes
all_output [] = []
all_output (p ∷ rest) = p ++ all_output rest

cut_piece :
    (r : ℕ) (held p : Bytes)
    → (if ltb 0 r then (if ltb r (length p) then held ++ take r p else held ++ p) else held)
      ≡ held ++ take r p
cut_piece r held p =
    if_intro (λ x. x ≡ held ++ take r p) (ltb 0 r) _ _
      (λ _.
        if_intro (λ x. x ≡ held ++ take r p) (ltb r (length p)) _ _ (λ _. refl)
          (λ b. ap (λ x. held ++ x) (sym (take_whole r p (not_above r (length p) b)))))
      (λ b. sym (append-nil held) ∙ ap (λ k. held ++ take k p) (sym (is_zero r b)))
  where
    not_above : (a b : ℕ) → ltb a b ≡ false → b ≤ a
    not_above a b h = ground (arith, h)

    is_zero : (r : ℕ) → ltb 0 r ≡ false → r ≡ 0
    is_zero r h = ground (arith, h)

left_over : (limit n : ℕ) → limit - min limit n ≡ limit - n
left_over limit n = omega arith

buffer_write-take :
    (limit : ℕ) (s p : Bytes) → buffer_write limit (take limit s) p ≡ take limit (s ++ p)
unfolding buffer_write
buffer_write-take limit s p =
    cut_piece (limit - length (take limit s)) (take limit s) p
    ∙ ap (λ k. take limit s ++ take k p)
        (ap (λ k. limit - k) (length-take limit s) ∙ left_over limit (length s))
    ∙ sym (take-append limit s p)

-- However the output of a process is split into Writes, the bounded buffer holds the first bytes of
-- all of it, up to its limit, and nothing else.
pub buffer_writes-take :
    (limit : ℕ) (before : Bytes) (pieces : List Bytes)
    → buffer_writes limit (take limit before) pieces ≡ take limit (before ++ all_output pieces)
unfolding buffer_writes all_output
buffer_writes-take limit before [] = ap (take limit) (sym (append-nil before))
buffer_writes-take limit before (p ∷ rest) =
    ap (λ held. buffer_writes limit held rest) (buffer_write-take limit before p)
    ∙ buffer_writes-take limit (before ++ p) rest
    ∙ ap (take limit) (append_assoc before p (all_output rest))

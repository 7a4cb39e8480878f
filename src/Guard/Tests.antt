-- ===== src/Guard/Tests.antt =====
-- Runs of Busy and Wait.
use soft_ue_index.Base.{◌≡◌, refl, false, some, none, [], ◌∷◌, arith, ltb, if◌then◌else◌}
use soft_ue_index.Base.Text.{str, eqb, contains, has_prefix, to_lower, lower_byte}
use soft_ue_index.Base.Int.{pos}
use soft_ue_index.Guard.{Options, Process, busy, is_build, clear, wait, rounds, who_at}
use soft_ue_index.Guard.Waiting.{Waits, wait_lem}

abbrev batch : Process
batch = record { pid = pos 7; name = str "CMD.exe"; cmdline = str "cmd /c RunUBT.bat" }

abbrev editor : Process
editor = record { pid = pos 8; name = str "UnrealEditor-Cmd.exe"; cmdline = str "-run" }

first_build : busy (editor ∷ batch ∷ []) (pos 8) ≡ some batch
unfolding busy is_build str eqb contains has_prefix to_lower lower_byte
first_build = refl

own_build : busy (batch ∷ []) (pos 7) ≡ none
unfolding busy is_build str eqb contains has_prefix to_lower lower_byte
own_build = refl

-- a build at the first three looks
abbrev three_rounds : Options
three_rounds = record {
  initial = pos 2;
  max = pos 5;
  total = pos 10;
  own_pid = pos 1;
  look = λ k. some (if ltb k 3 then batch ∷ [] else []);
  interrupts = λ k. false;
}

doubles : wait 11 three_rounds ≡ (clear, 2 ∷ 4 ∷ 5 ∷ [])
unfolding wait rounds who_at busy is_build str eqb contains has_prefix to_lower lower_byte
doubles = refl

wait_lem_example : Waits three_rounds 10 5 0 0 (wait 11 three_rounds)
wait_lem_example = wait_lem 11 three_rounds (omega arith) (omega arith) (omega arith)

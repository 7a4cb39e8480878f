-- ===== src/Lsp/Progress/Tests.antt =====
-- Runs of the indexer.
use soft_ue_index.Base.{true, ◌≡◌, refl, [], ◌∷◌, List}
use soft_ue_index.Base.Text.{str, eqb, one_of}
use soft_ue_index.Lsp.Progress.{
  Index, IndexPhase, IndexEvent, progresses, grace_starts, grace_ends, begin, report, finish,
  new_index, remove_token, index_step, index_steps, index_phase, handle_progress,
  start_grace_window,
}
use soft_ue_index.Lsp.Progress.Ready.{indexing_until_end, message_after_ready, ends_token}

-- another run ends, and a timer fires
abbrev between : List IndexEvent
between =
    progresses begin (str "2") (str "b") []
    ∷ progresses report (str "1") [] (str "1/9")
    ∷ progresses finish (str "2") [] []
    ∷ grace_ends
    ∷ []

abbrev ready_index : Index
ready_index = record {
  active_tokens = [];
  message = [];
  ready = true;
  saw_progress = true;
  grace = true;
}

one_run :
    index_phase (
      index_steps
        (grace_starts
          ∷ progresses begin (str "1") (str "a") []
          ∷ progresses finish (str "1") [] []
          ∷ [])
        new_index)
    ≡ IndexPhase.ready
unfolding index_phase index_steps index_step handle_progress start_grace_window new_index
    remove_token str eqb one_of
one_run = refl

indexing_until_end_example :
    index_phase (index_steps (progresses begin (str "1") (str "a") [] ∷ between) new_index)
    ≡ IndexPhase.indexing
unfolding ends_token str new_index eqb
indexing_until_end_example = indexing_until_end (str "1") new_index refl (str "a") [] between refl

message_after_ready_example :
    let after =
      index_steps
        (progresses begin (str "1") (97 ∷ []) [] ∷ progresses finish (str "1") [] [] ∷ [])
        ready_index in
    (index_phase after ≡ IndexPhase.ready) × (after.message ≡ 97 ∷ [])
message_after_ready_example = message_after_ready ready_index refl (str "1") [] 97 []

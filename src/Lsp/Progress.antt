-- ===== src/Lsp/Progress.antt =====
-- internal/lsp/client.go: how the client knows whether clangd's background index is ready. A
-- function here is one section under `progressMu`; a notification comes with its fields decoded.
pub mod Ready
mod Tests
use soft_ue_index.Base.{
  ℕ, Bool, true, false, not, ◌&&◌, ◌||◌, Option, some, none, List, [], ◌∷◌, if◌then◌else◌,
}
use soft_ue_index.Base.Text.{Bytes, str, eqb, one_of, is_empty}

pub record Index : Type 0 where
  pub active_tokens : List Bytes
  pub message : Bytes
  pub ready : Bool
  pub saw_progress : Bool
  pub grace : Bool

unfoldable pub new_index : Index
new_index = record {
  active_tokens = [];
  message = [];
  ready = false;
  saw_progress = false;
  grace = false;
}

pub data IndexPhase : Type 0 where
  starting indexing ready : IndexPhase

-- what a $/progress notification says
pub data Progress : Type 0 where
  begin report finish other : Progress

abbrev pub first_non_empty : Bytes → Bytes → Bytes
first_non_empty [] b = b
first_non_empty (c ∷ a) b = c ∷ a

abbrev pub add_token : Bytes → List Bytes → List Bytes
add_token token tokens = if one_of token tokens then tokens else token ∷ tokens

unfoldable pub remove_token : Bytes → List Bytes → List Bytes
remove_token token [] = []
remove_token token (t ∷ rest) =
    let out = remove_token token rest in if eqb t token then out else t ∷ out

-- markIndexReadyLocked
abbrev pub mark_ready : Index → Index
mark_ready s = if s.ready then s else record s { ready = true; message = [] }

abbrev pub is_none_left : List Bytes → Bool
is_none_left [] = true
is_none_left (t ∷ ts) = false

abbrev pub set_message : Bytes → Index → Index
set_message [] s = s
set_message (c ∷ text) s = record s { message = c ∷ text }

abbrev pub ready_if : Bool → Index → Index
ready_if true s = mark_ready s
ready_if false s = s

abbrev pub on_progress : Progress → Bytes → Bytes → Bytes → Index → Index
on_progress begin token title text s = record s {
  active_tokens = add_token token s.active_tokens;
  message = first_non_empty title text;
}
on_progress report token title text s = set_message (first_non_empty text title) s
on_progress finish token title text s =
    ready_if (is_none_left (remove_token token s.active_tokens))
      (record s { active_tokens = remove_token token s.active_tokens })
on_progress other token title text s = s

-- handleProgress
unfoldable pub handle_progress : Progress → Bytes → Bytes → Bytes → Index → Index
handle_progress kind token title text s =
    on_progress kind token title text (record s { saw_progress = true })

-- StartIndexGraceWindow, and the timer that it arms
unfoldable pub start_grace_window : Index → Index
start_grace_window s = if s.grace || s.ready then s else record s { grace = true }

unfoldable pub grace_over : Index → Index
grace_over s = if not s.saw_progress && is_none_left s.active_tokens then mark_ready s else s

unfoldable pub index_phase : Index → IndexPhase
index_phase s =
    if s.ready then IndexPhase.ready else elim s.active_tokens [ [] ↦ starting | _ ↦ indexing ]

-- What may happen to a client's index. The timer fires only when it is armed.
pub data IndexEvent : Type 0 where
  progresses : Progress → Bytes → Bytes → Bytes → IndexEvent
  grace_starts : IndexEvent
  grace_ends : IndexEvent

unfoldable pub index_step : IndexEvent → Index → Index
index_step (progresses kind token title text) s = handle_progress kind token title text s
index_step grace_starts s = start_grace_window s
index_step grace_ends s = if s.grace then grace_over s else s

unfoldable pub index_steps : List IndexEvent → Index → Index
index_steps [] s = s
index_steps (e ∷ es) s = index_steps es (index_step e s)

-- ===== src/Lsp/Manager/Tests.antt =====
-- A session that starts, is leased, fails and is retired.
use soft_ue_index.Base.{◌≡◌, refl, ◌≤◌, List, [], ◌∷◌, some, none, true, false}
use soft_ue_index.Base.Text.{str, eqb}
use soft_ue_index.Base.Int.{pos}
use soft_ue_index.Base.Assoc.{lookup, insert, remove}
use soft_ue_index.Lsp.Manager.{
  Config, Session, new_manager, client_round, with_defaults, config_eqb, find, create, on_session,
  join, restart, is_current, retire, backoff, got, kill, close_channel, spawn_start, spawn_watch,
  cancel_context, close_client,
}
use soft_ue_index.Lsp.Manager.Lifecycle.{
  Op, call_client, wake, publish_process, end_startup, call_release, call_invalidate, call_close,
  exited, watch, succeeded, perform, perform_all, finish_startup, startup_result, publish, release,
  invalidate,
}
use soft_ue_index.Lsp.Manager.Channels.{closes}
use soft_ue_index.Lsp.Manager.Waiters.{channel_closed_once}

abbrev game : Config
game = record {
  id = str "game";
  clangd = str "clangd";
  compilation_database = [];
  cache_dir = str "cache";
  root_uri = str "file:///game";
  threads = pos 0;
  idle_timeout = pos 0;
  index_grace_timeout = pos 0;
}

abbrev served : List Op
served =
    call_client game 0
    ∷ publish_process (str "game") 0 7
    ∷ end_startup (str "game") 0 0 (succeeded 7 5)
    ∷ wake none (str "game") 0
    ∷ []

-- The client is handed out once the startup is over.
second_call : (client_round game 1 (perform_all served new_manager)).0 ≡ got 5
unfolding perform_all perform client_round with_defaults config_eqb find create on_session join
    restart is_current new_manager finish_startup startup_result publish eqb str lookup insert
second_call = refl

-- Invalidate while the session is leased: it is retired by the release.
retired_on_release :
    (perform_all
      (call_invalidate (str "game") ∷ call_release (str "game") ∷ [])
      (perform_all served new_manager)).log
    ≡ spawn_start 0
      ∷ close_channel 0
      ∷ spawn_watch 0
      ∷ close_client 5
      ∷ kill 7
      ∷ cancel_context 0
      ∷ []
unfolding perform_all perform client_round with_defaults config_eqb find create on_session join
    restart is_current new_manager finish_startup startup_result publish release invalidate retire
    eqb str lookup insert remove
retired_on_release = refl

-- clangd exits while the session is leased, and the session starts again for a second lease: the
-- release of the first lease makes the count 0, so that an Invalidate kills the process although
-- the second lease still stands.
killed_under_lease :
    (perform_all
      (exited (str "game") 0 1
        ∷ call_client game 100
        ∷ publish_process (str "game") 0 8
        ∷ end_startup (str "game") 0 100 (succeeded 8 6)
        ∷ wake none (str "game") 0
        ∷ call_release (str "game")
        ∷ call_invalidate (str "game")
        ∷ [])
      (perform_all served new_manager)).log
    ≡ spawn_start 0
      ∷ close_channel 0
      ∷ spawn_watch 0
      ∷ close_client 5
      ∷ cancel_context 0
      ∷ spawn_start 0
      ∷ close_channel 1
      ∷ spawn_watch 0
      ∷ close_client 6
      ∷ kill 8
      ∷ cancel_context 0
      ∷ []
unfolding perform_all perform client_round with_defaults config_eqb find create on_session join
    restart is_current new_manager finish_startup startup_result publish release invalidate retire
    watch backoff eqb str lookup insert remove
killed_under_lease = refl

channel_closed_once_example :
    closes 0
      (perform_all
        (call_client game 0 ∷ call_close ∷ end_startup (str "game") 0 1 (succeeded 7 5) ∷ [])
        new_manager).log
    ≤ 1
channel_closed_once_example =
    channel_closed_once
      (call_client game 0 ∷ call_close ∷ end_startup (str "game") 0 1 (succeeded 7 5) ∷ []) 0

abbrev waiting_session : Session
waiting_session = record {
  config = with_defaults game;
  process = none;
  client = none;
  refs = 0;
  timer = false;
  failures = 0;
  next_start = none;
  starting = some 0;
  start_err = none;
  cancel = true;
  stale = false;
}

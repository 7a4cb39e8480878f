-- ===== src/Lsp/Manager/Backoff.antt =====
-- How long a session that failed to start is left alone.
use soft_ue_index.Base.{ℕ, suc, ◌+◌, ◌≡◌, true, false, Option, some, none}
use soft_ue_index.Base.Text.{Bytes}
use soft_ue_index.Base.Assoc.{lookup}
use soft_ue_index.Lsp.Manager.{Config, Session, Manager, backoff, with_defaults, config_eqb}
use soft_ue_index.Lsp.Manager.Lifecycle.{failed, finish_current}

module _ (request : Config) (m : Manager) (p now later : ℕ) (s : Session) (e : Bytes)
    (process client : Option ℕ) (running : m.closed ≡ false)
    (mapped : lookup (with_defaults request).id m.sessions ≡ some p)
    (same : config_eqb s.config (with_defaults request) ≡ true) (fresh : s.stale ≡ false) where
  abbrev failure : Manager
  failure = finish_current (with_defaults request).id p now s (failed e process client) m

  abbrev failed_session : Session
  failed_session = record s {
    failures = suc s.failures;
    next_start = some (now + backoff (suc s.failures));
    start_err = some e;
    process = none;
    client = none;
    cancel = false;
    starting = none;
  }

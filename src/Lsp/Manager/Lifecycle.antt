-- ===== src/Lsp/Manager/Lifecycle.antt =====
-- internal/lsp/manager.go: how a startup ends, and Release, Invalidate, the idle timer, the exit
-- of clangd, Close, and SessionState.
use soft_ue_index.Base.{
  ℕ, suc, ◌+◌, ◌-◌, Bool, true, false, not, ◌||◌, Option, some, none, List, [], ◌∷◌, ◌++◌,
  if◌then◌else◌, ◌==◌,
}
use soft_ue_index.Base.Text.{Bytes}
use soft_ue_index.Base.Assoc.{Assoc}
use soft_ue_index.Base.Result.{Result, ok, err}
use soft_ue_index.Lsp.Manager.{
  Config, Error, closed_manager, backing_off, start_failed, Session, Effect, kill, spawn_watch,
  Manager, write, emit, is_current, kill_of, close_of, cancel_of, channel_of, retire, backoff, find,
  client_round,
}

-- startupResult: `ctx_err` is an error of the caller's own context.
abbrev pub started : ℕ → Session → Manager → Option ℕ → Option Bytes → Result Error ℕ × Manager
started p s m (some c) e = (ok c, write p (record s { timer = false; refs = suc s.refs }) m)
started p s m none (some e) = (err (start_failed e), m)
started p s m none none = (err backing_off, m)

unfoldable pub startup_result :
    Option Error → Bytes → ℕ → Session → Manager → Result Error ℕ × Manager
startup_result (some e) id p s m = (err e, m)
startup_result none id p s m =
    if m.closed || not (is_current m id p)
    then (err closed_manager, m)
    else started p s m s.client s.start_err

-- the section of startSession that publishes the process: `true` when it goes on
unfoldable pub publish : Bytes → ℕ → ℕ → Session → Manager → Bool × Manager
publish id p process s m =
    if m.closed || not (is_current m id p)
    then (false, emit (kill process ∷ []) m)
    else (true, write p (record s { process = some process }) m)

-- What a start goroutine ends with.
pub data Startup : Type 0 where
  failed : Bytes → Option ℕ → Option ℕ → Startup
  succeeded : ℕ → ℕ → Startup

abbrev pub startup_process : Startup → Option ℕ
startup_process (failed e p c) = p
startup_process (succeeded p c) = some p

abbrev pub startup_client : Startup → Option ℕ
startup_client (failed e p c) = c
startup_client (succeeded p c) = some c

-- cleanupStartup: the context, the client, the process
unfoldable pub cleanup : ℕ → Option ℕ → Option ℕ → Bool → List Effect
cleanup p process client cancel = cancel_of p cancel ++ (close_of client ++ kill_of process)

abbrev pub finish_current : Bytes → ℕ → ℕ → Session → Startup → Manager → Manager
finish_current id p now s (failed e process client) m =
    emit (channel_of s.starting ++ cleanup p process client s.cancel) (
      write p
        (record s {
          failures = suc s.failures;
          next_start = some (now + backoff (suc s.failures));
          start_err = some e;
          process = none;
          client = none;
          cancel = false;
          starting = none;
        })
        m)
finish_current id p now s (succeeded process client) m =
    emit (channel_of s.starting ++ (spawn_watch p ∷ [])) (
      write p
        (record s {
          client = some client;
          start_err = none;
          refs = 0;
          timer = true;
          starting = none;
        })
        m)

unfoldable pub finish_startup : Bytes → ℕ → ℕ → Session → Startup → Manager → Manager
finish_startup id p now s result m =
    if m.closed || not (is_current m id p)
    then emit
        (channel_of s.starting
          ++ cleanup p (startup_process result) (startup_client result) s.cancel)
        (write p (record s { starting = none; cancel = false }) m)
    else finish_current id p now s result m

-- watch, after the process has exited
unfoldable pub watch : Bytes → ℕ → ℕ → Session → Manager → Manager
watch id p now s m =
    if is_current m id p
    then emit (close_of s.client ++ cancel_of p s.cancel) (
        write p
          (record s {
            client = none;
            process = none;
            cancel = false;
            failures = suc s.failures;
            next_start = some (now + backoff (suc s.failures));
          })
          m)
    else m

abbrev pub release_on : Bytes → Option (ℕ × Session) → Manager → Manager
release_on id none m = m
release_on id (some (p, s)) m =
    if s.refs == 0
    then m
    else let s' = record s { refs = s.refs - 1 } in
      if s'.refs == 0
      then (if s.stale
          then retire id p s' (write p s' m)
          else write p (record s' { timer = true }) m)
      else write p s' m

unfoldable pub release : Bytes → Manager → Manager
release id m = release_on id (find id m) m

abbrev pub invalidate_on : Bytes → Option (ℕ × Session) → Manager → Manager
invalidate_on id none m = m
invalidate_on id (some (p, s)) m =
    let s' = record s { stale = true } in
    if s.refs == 0 then retire id p s' (write p s' m) else write p s' m

unfoldable pub invalidate : Bytes → Manager → Manager
invalidate id m = invalidate_on id (find id m) m

-- the idle timer's callback
unfoldable pub stop : Bytes → ℕ → Session → Manager → Manager
stop id p s m = if not (is_current m id p) || not (s.refs == 0) then m else retire id p s m

-- One session in the loop of Close: the waiters are woken now, and the rest is gathered in `later`,
-- which is done after the lock is released.
abbrev pub close_one : ℕ → Option Session → List Effect × Manager → List Effect × Manager
close_one p none (later, m) = (later, m)
close_one p (some s) (later, m) = (
  later ++ cleanup p s.process s.client s.cancel,
  emit (channel_of s.starting)
      (write p (record s { starting = none; process = none; client = none; cancel = false }) m),
)

unfoldable pub close_all : Assoc ℕ → List Effect × Manager → List Effect × Manager
close_all [] state = state
close_all ((id, p) ∷ rest) state = close_all rest (close_one p (state.1.heap p) state)

abbrev pub clean_up : List Effect × Manager → Manager
clean_up (later, m) = emit later m

unfoldable pub close : Manager → Manager
close m =
    if m.closed
    then m
    else clean_up (close_all m.sessions ([], record m { closed = true; sessions = [] }))

pub data Phase : Type 0 where
  absent starting indexing ready degraded : Phase

-- SessionState; `phase` is what the client says of its index (IndexPhase and IndexMessage)
abbrev pub state_of : (ℕ → Phase × Bytes) → Option ℕ → Option ℕ → Option Bytes → Phase × Bytes
state_of phase (some c) ch e = phase c
state_of phase none (some ch) e = (starting, [])
state_of phase none none (some e) = (degraded, e)
state_of phase none none none = (absent, [])

unfoldable pub session_state : (ℕ → Phase × Bytes) → Bytes → Manager → Phase × Bytes
session_state phase id m = elim (find id m) [
  | none ↦ (absent, [])
  | some (p, s) ↦ state_of phase s.client s.starting s.start_err
]

-- What may happen to a manager. A goroutine or a timer names the session by its pointer.
pub data Op : Type 0 where
  call_client : Config → ℕ → Op
  wake : Option Error → Bytes → ℕ → Op
  publish_process : Bytes → ℕ → ℕ → Op
  end_startup : Bytes → ℕ → ℕ → Startup → Op
  exited : Bytes → ℕ → ℕ → Op
  call_release : Bytes → Op
  call_invalidate : Bytes → Op
  idle : Bytes → ℕ → Op
  call_close : Op

abbrev pub at : ℕ → (Session → Manager → Manager) → Manager → Manager
at p f m = elim (m.heap p) [ none ↦ m | some s ↦ f s m ]

unfoldable pub perform : Op → Manager → Manager
perform (call_client cfg now) m = (client_round cfg now m).1
perform (wake e id p) m = at p (λ s m. (startup_result e id p s m).1) m
perform (publish_process id p process) m = at p (λ s m. (publish id p process s m).1) m
perform (end_startup id p now result) m = at p (λ s m. finish_startup id p now s result m) m
perform (exited id p now) m = at p (λ s m. watch id p now s m) m
perform (call_release id) m = release id m
perform (call_invalidate id) m = invalidate id m
perform (idle id p) m = at p (λ s m. stop id p s m) m
perform call_close m = close m

unfoldable pub perform_all : List Op → Manager → Manager
perform_all [] m = m
perform_all (op ∷ ops) m = perform_all ops (perform op m)

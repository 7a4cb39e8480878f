-- ===== src/Lsp/Manager.antt =====
-- internal/lsp/manager.go. A function here is one section under `m.mu`. A session is behind a
-- pointer, since goroutines compare pointers; processes, clients and wake-up channels are numbers,
-- and what is done to them is logged in order. Time is a number of seconds.
pub mod Lifecycle
pub mod Channels
pub mod Waiters
pub mod Backoff
mod Tests
use soft_ue_index.Base.{
  ℕ, zero, suc, ◌+◌, ◌-◌, ◌*◌, ◌^◌, min, Bool, true, false, not, ◌&&◌, ◌||◌, Option, some, none,
  List, [], ◌∷◌, ◌++◌, if◌then◌else◌, ◌==◌, ltb,
}
use soft_ue_index.Base.Text.{Bytes, eqb}
use soft_ue_index.Base.Assoc.{Assoc, lookup, insert, remove}
use soft_ue_index.Base.Store.{Store, put_at}
use soft_ue_index.Base.Int.{ℤ, pos, negsuc, eqz, positive}

pub record Config : Type 0 where
  pub id : Bytes
  pub clangd : Bytes
  pub compilation_database : Bytes
  pub cache_dir : Bytes
  pub root_uri : Bytes
  pub threads : ℤ
  pub idle_timeout : ℤ
  pub index_grace_timeout : ℤ

-- `s.config != cfg` compares every field.
unfoldable pub config_eqb : Config → Config → Bool
config_eqb a b =
    eqb a.id b.id
    && (eqb a.clangd b.clangd
        && (eqb a.compilation_database b.compilation_database
            && (eqb a.cache_dir b.cache_dir
                && (eqb a.root_uri b.root_uri
                    && (eqz a.threads b.threads
                        && (eqz a.idle_timeout b.idle_timeout
                            && eqz a.index_grace_timeout b.index_grace_timeout))))))

pub data Error : Type 0 where
  closed_manager : Error
  config_changed : Error
  backing_off : Error
  start_failed : Bytes → Error

pub record Session : Type 0 where
  pub config : Config
  pub process : Option ℕ
  pub client : Option ℕ
  pub refs : ℕ
  pub timer : Bool
  pub failures : ℕ
  pub next_start : Option ℕ
  pub starting : Option ℕ
  pub start_err : Option Bytes
  pub cancel : Bool
  pub stale : Bool

-- What is done to the world outside, in order.
pub data Effect : Type 0 where
  kill : ℕ → Effect
  close_client : ℕ → Effect
  cancel_context : ℕ → Effect
  close_channel : ℕ → Effect
  spawn_start : ℕ → Effect
  spawn_watch : ℕ → Effect

pub record Manager : Type 0 where
  pub sessions : Assoc ℕ
  pub closed : Bool
  pub heap : Store Session
  pub next_session : ℕ
  pub next_channel : ℕ
  pub log : List Effect

unfoldable pub new_manager : Manager
new_manager = record {
  sessions = [];
  closed = false;
  heap = λ p. none;
  next_session = 0;
  next_channel = 0;
  log = [];
}

abbrev pub write : ℕ → Session → Manager → Manager
write p s m = record m { heap = put_at m.heap p s }

abbrev pub emit : List Effect → Manager → Manager
emit es m = record m { log = m.log ++ es }

-- `m.sessions[id] == s`
unfoldable pub is_current : Manager → Bytes → ℕ → Bool
is_current m id p = elim (lookup id m.sessions) [ none ↦ false | some q ↦ q == p ]

abbrev pub kill_of : Option ℕ → List Effect
kill_of none = []
kill_of (some p) = kill p ∷ []

abbrev pub close_of : Option ℕ → List Effect
close_of none = []
close_of (some c) = close_client c ∷ []

abbrev pub cancel_of : ℕ → Bool → List Effect
cancel_of p true = cancel_context p ∷ []
cancel_of p false = []

abbrev pub channel_of : Option ℕ → List Effect
channel_of none = []
channel_of (some ch) = close_channel ch ∷ []

-- retireLocked, and the same lines of stop
unfoldable pub retire : Bytes → ℕ → Session → Manager → Manager
retire id p s m =
    if is_current m id p
    then record m {
      sessions = remove id m.sessions;
      log = m.log ++ (close_of s.client ++ (kill_of s.process ++ cancel_of p s.cancel));
    }
    else m

-- backoff, in seconds; it is called with the failures counted so far, at least 1
unfoldable pub backoff : ℕ → ℕ
backoff f = 2 ^ (min f 5 - 1)

-- the defaults that Client puts into its configuration
abbrev pub five_minutes : ℕ
five_minutes = 300

unfoldable pub with_defaults : Config → Config
with_defaults cfg = record cfg {
  threads = elim (positive cfg.threads) [ none ↦ pos 1 | some n ↦ cfg.threads ];
  idle_timeout = elim (positive cfg.idle_timeout) [
    | none ↦ pos five_minutes
    | some n ↦ cfg.idle_timeout
  ];
}

-- How one round of Client's loop ends: with an error, a client, another round, or the wait for the
-- startup of a session.
pub data Outcome : Type 0 where
  denied : Error → Outcome
  got : ℕ → Outcome
  again : Outcome
  wait_for : ℕ → Outcome

-- a session that is not there yet
unfoldable pub create : Config → Manager → Outcome × Manager
create cfg m = (
  wait_for m.next_session,
  record m {
    sessions = insert cfg.id m.next_session m.sessions;
    heap = put_at m.heap m.next_session (record {
      config = cfg;
      process = none;
      client = none;
      refs = 0;
      timer = false;
      failures = 0;
      next_start = none;
      starting = some m.next_channel;
      start_err = none;
      cancel = true;
      stale = false;
    });
    next_session = suc m.next_session;
    next_channel = suc m.next_channel;
    log = m.log ++ (spawn_start m.next_session ∷ []);
  },
)

abbrev pub before_start : ℕ → Option ℕ → Bool
before_start now none = false
before_start now (some t) = ltb now t

unfoldable pub restart : Config → ℕ → Session → Manager → Outcome × Manager
restart cfg p s m = (
  wait_for p,
  record m {
    heap = put_at m.heap p (record s {
      config = cfg;
      start_err = none;
      starting = some m.next_channel;
      cancel = true;
    });
    next_channel = suc m.next_channel;
    log = m.log ++ (spawn_start p ∷ []);
  },
)

-- a session with the same configuration: its client, its startup, or a new start
unfoldable pub join : Config → ℕ → ℕ → Session → Manager → Option ℕ → Option ℕ → Outcome × Manager
join cfg now p s m (some c) starting =
    (got c, write p (record s { timer = false; refs = suc s.refs }) m)
join cfg now p s m none (some ch) = (wait_for p, m)
join cfg now p s m none none =
    if before_start now s.next_start then (denied backing_off, m) else restart cfg p s m

unfoldable pub on_session : Config → ℕ → ℕ → Session → Manager → Outcome × Manager
on_session cfg now p s m =
    if s.stale || not (config_eqb s.config cfg)
    then (if not (s.refs == 0)
        then (denied config_changed, write p (record s { stale = true }) m)
        else (
          again,
          retire cfg.id p (record s { stale = true }) (write p (record s { stale = true }) m),
        ))
    else join cfg now p s m s.client s.starting

-- `m.sessions[id]`, with what it points to
unfoldable pub find : Bytes → Manager → Option (ℕ × Session)
find id m = elim (lookup id m.sessions) [
  | none ↦ none
  | some p ↦ elim (m.heap p) [ none ↦ none | some s ↦ some (p, s) ]
]

abbrev pub client_on : Config → ℕ → Manager → Option (ℕ × Session) → Outcome × Manager
client_on cfg now m none = create cfg m
client_on cfg now m (some (p, s)) = on_session cfg now p s m

-- one round of the loop of Client
unfoldable pub client_round : Config → ℕ → Manager → Outcome × Manager
client_round request now m =
    let cfg = with_defaults request in
    if m.closed then (denied closed_manager, m) else client_on cfg now m (find cfg.id m)

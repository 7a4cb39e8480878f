-- ===== src/Lsp/Manager/Waiters.antt =====
-- Every operation of the manager keeps the discipline of the wake-up channels.
use soft_ue_index.Base.{
  ℕ, ◌-◌, ◌≤◌, ◌≡◌, refl, Bool, true, false, not, ◌||◌, Option, some, none, List, [], ◌∷◌, ◌++◌,
  if◌then◌else◌, ◌==◌, arith, if_intro, ap, sym, ◌∙◌, subst, append-nil,
}
use soft_ue_index.Base.Text.{Bytes}
use soft_ue_index.Base.Assoc.{Assoc}
use soft_ue_index.Base.Result.{Result}
use soft_ue_index.Lsp.Manager.{
  Config, Error, Session, Effect, Manager, new_manager, write, emit, is_current, close_of,
  channel_of, find, Outcome, create, before_start, restart, join, on_session, client_on,
  client_round, with_defaults, config_eqb,
}
use soft_ue_index.Lsp.Manager.Lifecycle.{
  started, startup_result, publish, Startup, failed, succeeded, finish_current, finish_startup,
  watch, release_on, release, invalidate_on, invalidate, stop, close_one, close_all, clean_up,
  close, Op, call_client, wake, publish_process, end_startup, exited, call_release, call_invalidate,
  idle, call_close, at, perform, perform_all,
}
use soft_ue_index.Lsp.Manager.Channels.{
  closes, Channels, channel, waited, calm, renewed, woken, Quiet, Quiet-append, Quiet-close_of,
  Quiet-cancel_of, Quiet-cleanup, Quiet-nil, Quiet-spawn_start, Quiet-spawn_watch, Quiet-kill,
  channel-write, calm_write, calm_emit, retire-Channels,
}

create-Channels : (cfg : Config) (m : Manager) → Channels m → Channels (create cfg m).1
unfolding create
create-Channels cfg m c =
    renewed m _ c _ (Quiet-spawn_start m.next_session) m.next_session
      (channel-write m m.next_session _) refl refl

restart-Channels :
    (cfg : Config) (p : ℕ) (s : Session) (m : Manager) → Channels m → Channels (restart cfg p s m).1
unfolding restart
restart-Channels cfg p s m c =
    renewed m _ c _ (Quiet-spawn_start p) p (channel-write m p _) refl refl

join-Channels :
    (cfg : Config) (now p : ℕ) (s : Session) (m : Manager) (client starting : Option ℕ)
    → Channels m
    → m.heap p ≡ some s
    → Channels (join cfg now p s m client starting).1
unfolding join
join-Channels cfg now p s m (some x) starting c e = calm_write m p s _ c e refl
join-Channels cfg now p s m none (some ch) c e = c
join-Channels cfg now p s m none none c e =
    if_intro (λ (r : Outcome × Manager). Channels r.1) (before_start now s.next_start) _ _ (λ b. c)
      (λ b. restart-Channels cfg p s m c)

on_session-Channels :
    (cfg : Config) (now p : ℕ) (s : Session) (m : Manager)
    → Channels m
    → m.heap p ≡ some s
    → Channels (on_session cfg now p s m).1
unfolding on_session
on_session-Channels cfg now p s m c e =
    let marked = calm_write m p s (record s { stale = true }) c e refl in
    if_intro (λ (r : Outcome × Manager). Channels r.1) (s.stale || not (config_eqb s.config cfg)) _
      _
      (λ b.
        if_intro (λ (r : Outcome × Manager). Channels r.1) (not (s.refs == 0)) _ _ (λ b'. marked)
          (λ b'. retire-Channels cfg.id p _ _ marked))
      λ b. join-Channels cfg now p s m s.client s.starting c e

-- `find` follows the pointer.
find_heap :
    (id : Bytes) (m : Manager) (p : ℕ) (s : Session) → find id m ≡ some (p, s) → m.heap p ≡ some s
unfolding find
find_heap id m p s h = ground arith

client_on-Channels :
    (cfg : Config) (now : ℕ) (m : Manager) (o : Option (ℕ × Session))
    → Channels m
    → find cfg.id m ≡ o
    → Channels (client_on cfg now m o).1
client_on-Channels cfg now m none c e = create-Channels cfg m c
client_on-Channels cfg now m (some (p, s)) c e =
    on_session-Channels cfg now p s m c (find_heap cfg.id m p s e)

client_round-Channels :
    (cfg : Config) (now : ℕ) (m : Manager) → Channels m → Channels (client_round cfg now m).1
unfolding client_round
client_round-Channels cfg now m c =
    if_intro (λ (r : Outcome × Manager). Channels r.1) m.closed _ _ (λ b. c)
      λ b. client_on-Channels (with_defaults cfg) now m (find (with_defaults cfg).id m) c refl

startup_result-Channels :
    (e : Option Error) (id : Bytes) (p : ℕ) (s : Session) (m : Manager)
    → Channels m
    → m.heap p ≡ some s
    → Channels (startup_result e id p s m).1
unfolding startup_result
startup_result-Channels (some e) id p s m c at_p = c
startup_result-Channels none id p s m c at_p =
    if_intro (λ (r : Result Error ℕ × Manager). Channels r.1) (m.closed || not (is_current m id p))
      _ _ (λ b. c) λ b. leased s.client s.start_err
  where
    leased : (o : Option ℕ) (e : Option Bytes) → Channels (started p s m o e).1
    leased (some x) e = calm_write m p s _ c at_p refl
    leased none (some e) = c
    leased none none = c

publish-Channels :
    (id : Bytes) (p process : ℕ) (s : Session) (m : Manager)
    → Channels m
    → m.heap p ≡ some s
    → Channels (publish id p process s m).1
unfolding publish
publish-Channels id p process s m c e =
    if_intro (λ (r : Bool × Manager). Channels r.1) (m.closed || not (is_current m id p)) _ _
      (λ b. calm_emit m _ c (Quiet-kill process)) (λ b. calm_write m p s _ c e refl)

-- Waking the waiters of the session at `p`, with what else is done then.
woken_write :
    (m : Manager) (p : ℕ) (s s' : Session) (es : List Effect)
    → Channels m
    → m.heap p ≡ some s
    → s'.starting ≡ none
    → Quiet es
    → Channels (emit (channel_of s.starting ++ es) (write p s' m))
woken_write m p s s' es c e none_now q =
    woken m _ c es q p
      (λ k.
        channel-write m p s' k ∙ ap (λ (o : Option ℕ). if p == k then o else channel m k) none_now)
      refl (ap (λ (o : Option Session). m.log ++ (channel_of (waited o) ++ es)) (sym e))

finish_startup-Channels :
    (id : Bytes) (p now : ℕ) (s : Session) (result : Startup) (m : Manager)
    → Channels m
    → m.heap p ≡ some s
    → Channels (finish_startup id p now s result m)
unfolding finish_startup
finish_startup-Channels id p now s result m c e =
    if_intro Channels (m.closed || not (is_current m id p)) _ _
      (λ b. woken_write m p s _ _ c e refl (Quiet-cleanup p _ _ s.cancel)) (λ b. current result)
  where
    current : (result : Startup) → Channels (finish_current id p now s result m)
    current (failed x process client) =
        woken_write m p s _ _ c e refl (Quiet-cleanup p process client s.cancel)
    current (succeeded process client) = woken_write m p s _ _ c e refl (Quiet-spawn_watch p)

watch-Channels :
    (id : Bytes) (p now : ℕ) (s : Session) (m : Manager)
    → Channels m
    → m.heap p ≡ some s
    → Channels (watch id p now s m)
unfolding watch
watch-Channels id p now s m c e =
    if_intro Channels (is_current m id p) _ _
      (λ b.
        calm_emit _ _ (calm_write m p s _ c e refl) (
          Quiet-append (close_of s.client) _ (Quiet-close_of s.client)
            (Quiet-cancel_of p s.cancel)))
      λ b. c

release_on-Channels :
    (id : Bytes) (o : Option (ℕ × Session)) (m : Manager)
    → Channels m
    → find id m ≡ o
    → Channels (release_on id o m)
release_on-Channels id none m c e = c
release_on-Channels id (some (p, s)) m c e =
    let fewer = calm_write m p s (record s { refs = s.refs - 1 }) c (find_heap id m p s e) refl in
    if_intro Channels (s.refs == 0) _ _ (λ b. c)
      λ b.
        if_intro Channels (s.refs - 1 == 0) _ _
          (λ b'.
            if_intro Channels s.stale _ _ (λ x. retire-Channels id p _ _ fewer)
              (λ x. calm_write m p s _ c (find_heap id m p s e) refl))
          (λ b'. fewer)

invalidate_on-Channels :
    (id : Bytes) (o : Option (ℕ × Session)) (m : Manager)
    → Channels m
    → find id m ≡ o
    → Channels (invalidate_on id o m)
invalidate_on-Channels id none m c e = c
invalidate_on-Channels id (some (p, s)) m c e =
    let marked = calm_write m p s (record s { stale = true }) c (find_heap id m p s e) refl in
    if_intro Channels (s.refs == 0) _ _ (λ b. retire-Channels id p _ _ marked) (λ b. marked)

stop-Channels :
    (id : Bytes) (p : ℕ) (s : Session) (m : Manager) → Channels m → Channels (stop id p s m)
unfolding stop
stop-Channels id p s m c =
    if_intro Channels (not (is_current m id p) || not (s.refs == 0)) _ _ (λ b. c)
      (λ b. retire-Channels id p s m c)

-- The state of Close's loop: the effects that are put off close no channel.
record Closing (state : List Effect × Manager) : Type 0 where
  later : Quiet state.0
  now : Channels state.1

close_one-Closing :
    (p : ℕ) (o : Option Session) (state : List Effect × Manager)
    → Closing state
    → state.1.heap p ≡ o
    → Closing (close_one p o state)
close_one-Closing p none (later, m) c e = c
close_one-Closing p (some s) (later, m) c e = record {
  later = Quiet-append later _ c.later (Quiet-cleanup p s.process s.client s.cancel);
  now =
      subst Channels
        (ap
          (λ es. emit es (
            write p (record s { starting = none; process = none; client = none; cancel = false })
              m))
          (append-nil (channel_of s.starting)))
        (woken_write m p s
          (record s { starting = none; process = none; client = none; cancel = false }) [] c.now e
          refl Quiet-nil);
}

close_all-Closing :
    (sessions : Assoc ℕ) (state : List Effect × Manager)
    → Closing state
    → Closing (close_all sessions state)
unfolding close_all
close_all-Closing [] state c = c
close_all-Closing ((id, p) ∷ rest) state c =
    close_all-Closing rest _ (close_one-Closing p (state.1.heap p) state c refl)

clean_up-Channels : (state : List Effect × Manager) → Closing state → Channels (clean_up state)
clean_up-Channels (later, m) c = calm_emit m later c.now c.later

close-Channels : (m : Manager) → Channels m → Channels (close m)
unfolding close
close-Channels m c =
    if_intro Channels m.closed _ _ (λ b. c)
      λ b. clean_up-Channels _ (
        close_all-Closing m.sessions _ (record {
          later = Quiet-nil;
          now = calm m _ c [] Quiet-nil (λ q. refl) refl (sym (append-nil m.log));
        }))

at-Channels :
    (p : ℕ) (f : Session → Manager → Manager) (m : Manager)
    → ((s : Session) → m.heap p ≡ some s → Channels (f s m))
    → Channels m
    → Channels (at p f m)
at-Channels p f m h c = by_session (m.heap p) refl
  where
    by_session :
        (o : Option Session) → m.heap p ≡ o → Channels (elim o [ none ↦ m | some s ↦ f s m ])
    by_session none e = c
    by_session (some s) e = h s e

perform-Channels : (op : Op) (m : Manager) → Channels m → Channels (perform op m)
unfolding perform release invalidate
perform-Channels (call_client cfg now) m c = client_round-Channels cfg now m c
perform-Channels (wake e id p) m c =
    at-Channels p (λ s x. (startup_result e id p s x).1) m
      (λ s h. startup_result-Channels e id p s m c h) c
perform-Channels (publish_process id p process) m c =
    at-Channels p (λ s x. (publish id p process s x).1) m
      (λ s h. publish-Channels id p process s m c h) c
perform-Channels (end_startup id p now result) m c =
    at-Channels p (λ s. finish_startup id p now s result) m
      (λ s h. finish_startup-Channels id p now s result m c h) c
perform-Channels (exited id p now) m c =
    at-Channels p (watch id p now) m (λ s h. watch-Channels id p now s m c h) c
perform-Channels (call_release id) m c = release_on-Channels id (find id m) m c refl
perform-Channels (call_invalidate id) m c = invalidate_on-Channels id (find id m) m c refl
perform-Channels (idle id p) m c = at-Channels p (stop id p) m (λ s h. stop-Channels id p s m c) c
perform-Channels call_close m c = close-Channels m c

perform_all-Channels : (ops : List Op) (m : Manager) → Channels m → Channels (perform_all ops m)
unfolding perform_all
perform_all-Channels [] m c = c
perform_all-Channels (op ∷ ops) m c =
    perform_all-Channels ops (perform op m) (perform-Channels op m c)

new_manager-Channels : Channels new_manager
unfolding new_manager closes
new_manager-Channels = record {
  pending = λ p ch e. cc;
  own = λ p q ch e f. cc;
  once = λ ch. omega arith;
  unused = λ ch le. refl;
}

-- Whatever is done to a new manager, in any order and with late goroutines and timers, no wake-up
-- channel of a session is closed twice.
pub channel_closed_once : (ops : List Op) (ch : ℕ) → closes ch (perform_all ops new_manager).log ≤ 1
channel_closed_once ops ch = (perform_all-Channels ops new_manager new_manager-Channels).once ch

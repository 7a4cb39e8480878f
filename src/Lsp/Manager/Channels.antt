-- ===== src/Lsp/Manager/Channels.antt =====
-- The channel that wakes the callers of one startup is closed at most once: Go panics otherwise.
use soft_ue_index.Base.{
  ℕ, suc, ◌+◌, ◌≤◌, ◌<◌, ◌≡◌, refl, Bool, true, false, Option, some, none, List, [], ◌∷◌, ◌++◌,
  if◌then◌else◌, ◌==◌, ==_iff, arith, Bool-cases, inl, inr, ◌⊎◌, if_intro, ap, sym, ◌∙◌, append-nil,
}
use soft_ue_index.Base.Text.{Bytes}
use soft_ue_index.Lsp.Manager.{
  Session, Effect, kill, close_channel, spawn_start, spawn_watch, Manager, write, emit, is_current,
  kill_of, close_of, cancel_of, channel_of, retire,
}
use soft_ue_index.Lsp.Manager.Lifecycle.{cleanup}

-- How often a channel was closed.
abbrev pub closes_one : ℕ → Effect → ℕ
closes_one ch (close_channel k) = if k == ch then 1 else 0
closes_one ch _ = 0

unfoldable pub closes : ℕ → List Effect → ℕ
closes ch [] = 0
closes ch (e ∷ es) = closes_one ch e + closes ch es

pub closes-append :
    (ch : ℕ) (es fs : List Effect) → closes ch (es ++ fs) ≡ closes ch es + closes ch fs
unfolding closes
closes-append ch [] fs = omega arith
closes-append ch (e ∷ es) fs = omega (arith, closes-append ch es fs)

abbrev pub Quiet : List Effect → Type 0
Quiet es = (ch : ℕ) → closes ch es ≡ 0

-- The channel that the callers of a session's startup wait on.
abbrev pub waited : Option Session → Option ℕ
waited none = none
waited (some s) = s.starting

abbrev pub channel : Manager → ℕ → Option ℕ
channel m p = waited (m.heap p)

pub record Channels (m : Manager) : Type 0 where
  pub pending : (p ch : ℕ) → channel m p ≡ some ch → (ch < m.next_channel) × (closes ch m.log ≡ 0)
  pub own : (p q ch : ℕ) → channel m p ≡ some ch → channel m q ≡ some ch → p ≡ q
  pub once : (ch : ℕ) → closes ch m.log ≤ 1
  pub unused : (ch : ℕ) → m.next_channel ≤ ch → closes ch m.log ≡ 0

module _ (m u : Manager) (c : Channels m) (es : List Effect) (quiet : Quiet es) where
  -- no session's channel changes
  pub calm :
      ((q : ℕ) → channel u q ≡ channel m q)
      → u.next_channel ≡ m.next_channel
      → u.log ≡ m.log ++ es
      → Channels u
  calm same next log = record {
    pending = λ p ch e.
        let (below, never) = c.pending p ch (sym (same p) ∙ e) in
        (omega arith, rw (log, closes-append ch m.log, quiet ch) (omega arith));
    own = λ p q ch e f. c.own p q ch (sym (same p) ∙ e) (sym (same q) ∙ f);
    once = λ ch. rw (log, closes-append ch m.log, quiet ch) (omega (arith, c.once ch));
    unused = λ ch le.
        rw (log, closes-append ch m.log, quiet ch) (omega (arith, c.unused ch (omega arith)));
  }

  -- the session at `p` gets a new channel
  pub renewed :
      (p : ℕ)
      → ((q : ℕ) → channel u q ≡ (if p == q then some m.next_channel else channel m q))
      → u.next_channel ≡ suc m.next_channel
      → u.log ≡ m.log ++ es
      → Channels u
  renewed p same next log = record {
    pending = λ q ch e. ground (
      arith,
      log,
      next,
      closes-append ch m.log es,
      quiet ch,
      same q,
      c.pending q ch,
      c.unused ch,
    );
    own =
        λ q r ch e f. ground (arith, same q, same r, c.own q r ch, c.pending q ch, c.pending r ch);
    once = λ ch. rw (log, closes-append ch m.log, quiet ch) (omega (arith, c.once ch));
    unused = λ ch le.
        rw (log, closes-append ch m.log, quiet ch) (omega (arith, c.unused ch (omega arith)));
  }

-- The waiters of the session at `p` are woken.
closes-channel_of :
    (ch : ℕ) (o : Option ℕ)
    → (closes ch (channel_of o) ≡ 0) ⊎ ((closes ch (channel_of o) ≡ 1) × (o ≡ some ch))
unfolding closes
closes-channel_of ch none = ground arith
closes-channel_of ch (some k) = ground arith

module _ (m u : Manager) (c : Channels m) (es : List Effect) (quiet : Quiet es) (p : ℕ) where
  pub woken :
      ((q : ℕ) → channel u q ≡ (if p == q then none else channel m q))
      → u.next_channel ≡ m.next_channel
      → u.log ≡ m.log ++ (channel_of (channel m p) ++ es)
      → Channels u
  woken same next log = record {
    pending = λ q ch e. ground (
      arith,
      count ch,
      closes-channel_of ch (channel m p),
      same q,
      c.pending q ch,
      c.own p q ch,
      next,
    );
    own = λ q r ch e f. ground (arith, same q, same r, c.own q r ch);
    once = λ ch.
        ground (arith, count ch, closes-channel_of ch (channel m p), c.pending p ch, c.once ch);
    unused = λ ch le.
        ground
          (arith, count ch, closes-channel_of ch (channel m p), c.pending p ch, c.unused ch, next);
  }
    where
      count : (ch : ℕ) → closes ch u.log ≡ closes ch m.log + closes ch (channel_of (channel m p))
      count ch =
          rw (log, closes-append ch m.log, closes-append ch (channel_of (channel m p)), quiet ch)
            (omega arith)

-- Effects that close no channel.
pub Quiet-append : (es fs : List Effect) → Quiet es → Quiet fs → Quiet (es ++ fs)
Quiet-append es fs a b ch = rw (closes-append ch es, a ch, b ch) (omega arith)

pub Quiet-kill_of : (o : Option ℕ) → Quiet (kill_of o)
unfolding closes
Quiet-kill_of none ch = refl
Quiet-kill_of (some p) ch = omega arith

pub Quiet-close_of : (o : Option ℕ) → Quiet (close_of o)
unfolding closes
Quiet-close_of none ch = refl
Quiet-close_of (some p) ch = omega arith

pub Quiet-cancel_of : (p : ℕ) (b : Bool) → Quiet (cancel_of p b)
unfolding closes
Quiet-cancel_of p true ch = omega arith
Quiet-cancel_of p false ch = refl

pub Quiet-cleanup :
    (p : ℕ) (process client : Option ℕ) (b : Bool) → Quiet (cleanup p process client b)
unfolding cleanup
Quiet-cleanup p process client b =
    Quiet-append (cancel_of p b) _ (Quiet-cancel_of p b)
      (Quiet-append (close_of client) _ (Quiet-close_of client) (Quiet-kill_of process))

pub Quiet-nil : Quiet []
unfolding closes
Quiet-nil ch = refl

pub Quiet-spawn_start : (p : ℕ) → Quiet (spawn_start p ∷ [])
unfolding closes
Quiet-spawn_start p ch = omega arith

pub Quiet-spawn_watch : (p : ℕ) → Quiet (spawn_watch p ∷ [])
unfolding closes
Quiet-spawn_watch p ch = omega arith

pub Quiet-kill : (p : ℕ) → Quiet (kill p ∷ [])
unfolding closes
Quiet-kill p ch = omega arith

pub channel-write :
    (m : Manager) (p : ℕ) (s : Session) (q : ℕ)
    → channel (write p s m) q ≡ (if p == q then s.starting else channel m q)
channel-write m p s q = ground arith

-- A write that leaves the channel of its session.
pub same_channel :
    (m : Manager) (p : ℕ) (s s' : Session)
    → m.heap p ≡ some s
    → s'.starting ≡ s.starting
    → (q : ℕ) → channel (write p s' m) q ≡ channel m q
same_channel m p s s' e same q = elim (Bool-cases (p == q)) [
  | inl at_p ↦
      rw (channel-write m p s' q, at_p, same)
        (ap waited (sym e) ∙ ap (channel m) ((==_iff p q).0 at_p))
  | inr away ↦ rw (channel-write m p s' q, away)
]

pub calm_write :
    (m : Manager) (p : ℕ) (s s' : Session)
    → Channels m
    → m.heap p ≡ some s
    → s'.starting ≡ s.starting
    → Channels (write p s' m)
calm_write m p s s' c e same =
    calm m (write p s' m) c [] Quiet-nil (same_channel m p s s' e same) refl
      (sym (append-nil m.log))

pub calm_emit : (m : Manager) (es : List Effect) → Channels m → Quiet es → Channels (emit es m)
calm_emit m es c q = calm m (emit es m) c es q (λ p. refl) refl refl

pub retire-Channels :
    (id : Bytes) (p : ℕ) (s : Session) (m : Manager) → Channels m → Channels (retire id p s m)
unfolding retire
retire-Channels id p s m c =
    if_intro Channels (is_current m id p) _ _
      (λ b.
        calm m _ c _
          (Quiet-append (close_of s.client) _ (Quiet-close_of s.client) (
            Quiet-append (kill_of s.process) _ (Quiet-kill_of s.process)
              (Quiet-cancel_of p s.cancel)))
          (λ q. refl) refl refl)
      λ b. c

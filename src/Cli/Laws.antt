-- ===== src/Cli/Laws.antt =====
-- What Parse promises: accepted commands are well formed, and a flag may stand anywhere.
use soft_ue_index.Base.{
  ◌≡◌, true, false, List, [], ◌∷◌, ◌++◌, Option, some, none, refl, arith, ap, sym, ◌∙◌, subst,
}
use soft_ue_index.Base.Text.{Bytes, str, eqb, eqb_iff, is_empty, one_of}
use soft_ue_index.Base.Result.{Result, ok, err, ◌>>=◌, through}
use soft_ue_index.Cli.{
  Command, UsageError, Scan, scan_arg, scan, only, is_action, with_action, dispatch, check_flags,
  finish, parse, new_command,
}

abbrev pub names : List Bytes
names =
    str "doctor"
    ∷ str "list"
    ∷ str "watch"
    ∷ str "mcp"
    ∷ str "add"
    ∷ str "generate"
    ∷ str "status"
    ∷ str "remove"
    ∷ str "index-engine"
    ∷ str "daemon"
    ∷ []

pub record IsValid (c : Command) : Type 0 where
  pub known : one_of c.name names ≡ true
  pub scope_generate : is_empty c.engine_scope ≡ false → c.name ≡ str "generate"
  pub child_run : c.child ≡ true → (c.name ≡ str "daemon") × (c.daemon_action ≡ str "run")
  pub daemon_action_known : c.name ≡ str "daemon" → is_action c.daemon_action ≡ true

check_flags_ok :
    (c d : Command)
    → check_flags c ≡ ok d
    → (c ≡ d)
      × (is_empty c.engine_scope ≡ false → c.name ≡ str "generate")
      × (c.child ≡ true → (c.name ≡ str "daemon") × (c.daemon_action ≡ str "run"))
unfolding check_flags
check_flags_ok c d h = ground (
  arith,
  eqb_iff c.name (str "generate"),
  eqb_iff c.name (str "daemon"),
  eqb_iff c.daemon_action (str "run"),
)

dispatch_known :
    (c d : Command) (rest : List Bytes)
    → dispatch c rest ≡ ok d
    → (d.name ≡ c.name) × (one_of c.name names ≡ true)
unfolding dispatch one_of
dispatch_known c d [] h = ground arith
dispatch_known c d (a ∷ []) h = ground arith
dispatch_known c d (a ∷ b ∷ rest) h = ground arith

dispatch_daemon :
    (c : Command) (rest : List Bytes)
    → dispatch (record c { name = str "daemon" }) rest
      ≡ with_action (record c { name = str "daemon" }) (only rest)
unfolding dispatch one_of str eqb
dispatch_daemon c rest = refl

with_action_ok :
    (c d : Command) (a : Option Bytes) → with_action c a ≡ ok d → is_action d.daemon_action ≡ true
with_action_ok c d none h = cc
with_action_ok c d (some a) h = ground arith

dispatch-is_action :
    (c d : Command) (rest : List Bytes)
    → c.name ≡ str "daemon"
    → dispatch c rest ≡ ok d
    → is_action d.daemon_action ≡ true
dispatch-is_action c d rest e h =
    with_action_ok (record c { name = str "daemon" }) d (only rest)
      (sym (dispatch_daemon c rest) ∙ ap (λ n. dispatch (record c { name = n }) rest) (sym e) ∙ h)

finish-IsValid :
    (c : Command) (ps : List Bytes) {d : Command}
    → finish (record { command = c; positionals = ps }) ≡ ok d
    → IsValid d
unfolding finish
finish-IsValid c [] h = cc
finish-IsValid c (name ∷ rest) h =
    let (e, first, second) = through (dispatch (record c { name = name }) rest) check_flags h in
    let (same, scope, child) = check_flags_ok e _ second in
    let (named, known) = dispatch_known (record c { name = name }) e rest first in
    subst IsValid same (record {
      known = rw named known;
      scope_generate = scope;
      child_run = child;
      daemon_action_known =
          λ p. dispatch-is_action (record c { name = name }) e rest (sym named ∙ p) first;
    })

-- Every command that Parse accepts is well formed.
pub parse-IsValid : (args : List Bytes) {c : Command} → parse args ≡ ok c → IsValid c
unfolding parse
parse-IsValid args h = finish-IsValid _ _ h

abbrev pub with_json : Command → Command
with_json c = record c { json = true }

abbrev pub map_ok : (Command → Command) → Result UsageError Command → Result UsageError Command
map_ok f (ok c) = ok (f c)
map_ok f (err e) = err e

abbrev json_scan : Scan → Scan
json_scan s = record s { command = with_json s.command }

scan_arg-json : (s : Scan) (a : Bytes) → scan_arg (json_scan s) a ≡ json_scan (scan_arg s a)
unfolding scan_arg
scan_arg-json s a = ground arith

scan-json : (s : Scan) (xs : List Bytes) → scan (json_scan s) xs ≡ json_scan (scan s xs)
unfolding scan
scan-json s [] = refl
scan-json s (x ∷ xs) = rw (scan_arg-json s x) (scan-json (scan_arg s x) xs)

scan-flag :
    (s : Scan) (xs ys : List Bytes)
    → scan s (xs ++ str "--json" ∷ ys) ≡ json_scan (scan s (xs ++ ys))
unfolding scan
scan-flag s [] ys = unfold scan_arg str eqb in scan-json s ys
scan-flag s (x ∷ xs) ys = scan-flag (scan_arg s x) xs ys

dispatch-json :
    (c : Command) (rest : List Bytes)
    → dispatch (with_json c) rest ≡ map_ok with_json (dispatch c rest)
unfolding dispatch
dispatch-json c [] = ground arith
dispatch-json c (a ∷ []) = ground arith
dispatch-json c (a ∷ b ∷ rest) = ground arith

check_flags-json : (c : Command) → check_flags (with_json c) ≡ map_ok with_json (check_flags c)
unfolding check_flags
check_flags-json c = ground arith

bind-json :
    (r : Result UsageError Command)
    → (map_ok with_json r >>= check_flags) ≡ map_ok with_json (r >>= check_flags)
bind-json (ok c) = check_flags-json c
bind-json (err e) = refl

finish-json :
    (c : Command) (ps : List Bytes)
    → finish (record { command = with_json c; positionals = ps })
      ≡ map_ok with_json (finish (record { command = c; positionals = ps }))
unfolding finish
finish-json c [] = refl
finish-json c (name ∷ rest) =
    rw (dispatch-json (record c { name = name }) rest)
      (bind-json (dispatch (record c { name = name }) rest))

-- Wherever `--json` stands among the arguments, the outcome is that of the other arguments, an
-- error included, with `json` set in an accepted command.
pub parse-json :
    (xs ys : List Bytes) → parse (xs ++ str "--json" ∷ ys) ≡ map_ok with_json (parse (xs ++ ys))
unfolding parse
parse-json xs ys =
    rw (scan-flag (record { command = new_command; positionals = [] }) xs ys) (finish-json _ _)

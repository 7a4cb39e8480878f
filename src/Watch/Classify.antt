-- ===== src/Watch/Classify.antt =====
-- internal/watch/classify.go: which events of the file system call for a new compilation database,
-- and which directories are never watched. `slash` is filepath.ToSlash, `base` is filepath.Base and
-- `ext` filepath.Ext.
mod Tests
use soft_ue_index.Base.{
  ℕ, ◌≡◌, ◌↔◌, ◌⊎◌, refl, Bool, true, false, not, ◌&&◌, ◌||◌, List, [], ◌∷◌, ◌++◌, arith,
  if◌then◌else◌, ◌==◌, ==_iff, Bool-cases, subst, inl, inr, if_intro, ap, sym, ◌∙◌,
}
use soft_ue_index.Base.Text.{Bytes, str, eqb, eqb_iff, has_suffix, one_of, to_lower, lower_byte}

-- the bits of fsnotify.Op
pub record FileOp : Type 0 where
  pub create : Bool
  pub write : Bool
  pub remove : Bool
  pub rename : Bool
  pub chmod : Bool

pub record PathNames : Type 0 where
  pub slash : Bytes → Bytes
  pub base : Bytes → Bytes
  pub ext : Bytes → Bytes

abbrev pub source_extensions : List Bytes
source_extensions =
    str ".c"
    ∷ str ".cc"
    ∷ str ".cpp"
    ∷ str ".cxx"
    ∷ str ".h"
    ∷ str ".hh"
    ∷ str ".hpp"
    ∷ str ".hxx"
    ∷ str ".inl"
    ∷ []

unfoldable pub is_source_file : PathNames → Bytes → Bool
is_source_file os name = one_of (to_lower (os.ext name)) source_extensions

unfoldable pub is_rule_file : Bytes → Bool
is_rule_file base =
    has_suffix base (str ".build.cs")
    || (has_suffix base (str ".target.cs")
        || (has_suffix base (str ".uproject") || has_suffix base (str ".uplugin")))

unfoldable pub requires_comp_db : PathNames → Bytes → FileOp → Bool
requires_comp_db os path op =
    let base = os.base (to_lower (os.slash path)) in
    if is_rule_file base
    then true
    else if not (is_source_file os base)
    then false
    else op.create || (op.remove || op.rename)

abbrev pub ignored_segments : List Bytes
ignored_segments =
    str "binaries" ∷ str "intermediate" ∷ str "saved" ∷ str "deriveddatacache" ∷ str ".git" ∷ []

-- strings.Split at '/'
abbrev pub push : ℕ → List Bytes → List Bytes
push c [] = (c ∷ []) ∷ []
push c (part ∷ rest) = (c ∷ part) ∷ rest

unfoldable pub split : Bytes → List Bytes
split [] = [] ∷ []
split (c ∷ s) = let rest = split s in if c == b'/' then [] ∷ rest else push c rest

unfoldable pub any_ignored : List Bytes → Bool
any_ignored [] = false
any_ignored (s ∷ rest) = one_of s ignored_segments || any_ignored rest

unfoldable pub ignored_directory : PathNames → Bytes → Bool
ignored_directory os path = any_ignored (split (to_lower (os.slash path)))

abbrev is_empty_list : List Bytes → Bool
is_empty_list [] = true
is_empty_list (x ∷ xs) = false

any_ignored-append :
    (xs ys : List Bytes) → any_ignored (xs ++ ys) ≡ (any_ignored xs || any_ignored ys)
unfolding any_ignored
any_ignored-append [] ys = refl
any_ignored-append (x ∷ xs) ys = ground (arith, any_ignored-append xs ys)

push-append :
    (c : ℕ) (xs ys : List Bytes) → is_empty_list xs ≡ false → push c (xs ++ ys) ≡ push c xs ++ ys
push-append c [] ys h = absurd cc
push-append c (x ∷ xs) ys h = refl

split-some : (s : Bytes) → is_empty_list (split s) ≡ false
unfolding split
split-some [] = refl
split-some (c ∷ s) =
    if_intro (λ parts. is_empty_list parts ≡ false) (c == b'/') _ _ (λ b. refl)
      (λ b. pushed (split s))
  where
    pushed : (parts : List Bytes) → is_empty_list (push c parts) ≡ false
    pushed [] = refl
    pushed (x ∷ xs) = refl

split-append : (s t : Bytes) → split (s ++ (b'/' ∷ t)) ≡ split s ++ split t
unfolding split
split-append [] t = refl
split-append (c ∷ s) t =
    ground (arith, split-append s t, push-append c (split s) (split t) (split-some s))

any_ignored-parts :
    (s t : Bytes)
    → any_ignored (split (s ++ (b'/' ∷ t))) ≡ (any_ignored (split s) || any_ignored (split t))
any_ignored-parts s t = ap any_ignored (split-append s t) ∙ any_ignored-append (split s) (split t)

-- A path has a component: it is all of it, or the part before the first of its slashes that is
-- named, or a component of the part after one.
pub data Component (name : Bytes) : Bytes → Type 0 where
  whole : Component name name
  front : (t : Bytes) → Component name (name ++ (b'/' ∷ t))
  behind : (t : Bytes) {s : Bytes} → Component name s → Component name (t ++ (b'/' ∷ s))

-- the directories that Unreal and git fill
pub data Generated : Bytes → Type 0 where
  binaries : Generated (str "binaries")
  intermediate : Generated (str "intermediate")
  saved : Generated (str "saved")
  derived_data_cache : Generated (str "deriveddatacache")
  git : Generated (str ".git")

abbrev join : List Bytes → Bytes
join [] = []
join (x ∷ []) = x
join (x ∷ y ∷ rest) = x ++ (b'/' ∷ join (y ∷ rest))

join-push : (c : ℕ) (xs : List Bytes) → is_empty_list xs ≡ false → join (push c xs) ≡ c ∷ join xs
join-push c [] h = absurd cc
join-push c (x ∷ []) h = refl
join-push c (x ∷ y ∷ rest) h = refl

join-cons : (xs : List Bytes) → is_empty_list xs ≡ false → join ([] ∷ xs) ≡ b'/' ∷ join xs
join-cons [] h = absurd cc
join-cons (x ∷ xs) h = refl

join-split : (s : Bytes) → join (split s) ≡ s
unfolding split
join-split [] = refl
join-split (c ∷ s) =
    if_intro (λ parts. join parts ≡ c ∷ s) (c == b'/') ([] ∷ split s) (push c (split s))
      (λ b.
        join-cons (split s) (split-some s)
        ∙ ap (λ t. b'/' ∷ t) (join-split s)
        ∙ ap (λ d. d ∷ s) (sym ((==_iff c b'/').0 b)))
      (λ b. join-push c (split s) (split-some s) ∙ ap (λ t. c ∷ t) (join-split s))

-- one of the five names
one_of-Generated : (s : Bytes) → one_of s ignored_segments ≡ true → Generated s
unfolding one_of
one_of-Generated s h = named (
    ground (
      arith,
      h,
      eqb_iff s (str "binaries"),
      eqb_iff s (str "intermediate"),
      eqb_iff s (str "saved"),
      eqb_iff s (str "deriveddatacache"),
      eqb_iff s (str ".git"),
    ))
  where
    named :
        (s ≡ str "binaries")
          ⊎ ((s ≡ str "intermediate")
              ⊎ ((s ≡ str "saved") ⊎ ((s ≡ str "deriveddatacache") ⊎ (s ≡ str ".git"))))
        → Generated s
    named (inl e) = subst Generated (sym e) binaries
    named (inr (inl e)) = subst Generated (sym e) intermediate
    named (inr (inr (inl e))) = subst Generated (sym e) saved
    named (inr (inr (inr (inl e)))) = subst Generated (sym e) derived_data_cache
    named (inr (inr (inr (inr e)))) = subst Generated (sym e) git

any_ignored-found :
    (xs : List Bytes)
    → any_ignored xs ≡ true
    → (name : Bytes) × Generated name × Component name (join xs)
unfolding any_ignored
any_ignored-found [] h = cc
any_ignored-found (x ∷ []) h = (x, one_of-Generated x (ground arith), whole)
any_ignored-found (x ∷ y ∷ rest) h = elim (Bool-cases (one_of x ignored_segments)) [
  | inl b ↦ (x, one_of-Generated x b, front (join (y ∷ rest)))
  | inr b ↦
      (let (name, known, c) = any_ignored-found (y ∷ rest) (ground arith) in
        (name, known, behind x c))
]

Generated-ignored : (name : Bytes) → Generated name → any_ignored (split name) ≡ true
unfolding any_ignored split one_of eqb str
Generated-ignored _ binaries = refl
Generated-ignored _ intermediate = refl
Generated-ignored _ saved = refl
Generated-ignored _ derived_data_cache = refl
Generated-ignored _ git = refl

Component-ignored :
    (name : Bytes)
    → any_ignored (split name) ≡ true
    → {s : Bytes} → Component name s
    → any_ignored (split s) ≡ true
Component-ignored name h whole = h
Component-ignored name h (front t) = ground (arith, h, any_ignored-parts name t)
Component-ignored name h (behind t {s} c) =
    ground (arith, any_ignored-parts t s, Component-ignored name h c)

-- A path is ignored if and only if one of its components, in lower case, is `binaries`,
-- `intermediate`, `saved`, `deriveddatacache` or `.git`.
pub ignored_directory_iff :
    (os : PathNames) (path : Bytes)
    → (ignored_directory os path ≡ true)
      ↔ ((name : Bytes) × Generated name × Component name (to_lower (os.slash path)))
unfolding ignored_directory
ignored_directory_iff os path =
    let lower = to_lower (os.slash path) in
    (
      λ h.
          (let (name, known, c) = any_ignored-found (split lower) h in
            (name, known, subst (Component name) (join-split lower) c)),
      λ (name, known, c). Component-ignored name (Generated-ignored name known) c,
    )

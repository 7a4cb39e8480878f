-- ===== src/Lsp/Documents/Server.antt =====
-- The language server's side of the protocol: what notifications may do to its documents.
use soft_ue_index.Base.{
  ℕ, suc, Option, some, none, List, [], ◌∷◌, ◌++◌, ◌≡◌, refl, ap, ◌∙◌, ◌==◌, if◌then◌else◌,
}
use soft_ue_index.Base.Text.{Bytes}
use soft_ue_index.Base.Assoc.{Assoc, lookup, insert, remove}
use soft_ue_index.Lsp.Documents.{Note, did_open, did_close, did_change, watched_file}

-- A document of the server: its version and its text.
pub record Document : Type 0 where
  pub version : ℕ
  pub text : Bytes

-- One notification; `none` is a breach of the protocol: a document that is open is opened, one
-- that is closed is changed or closed, or a version does not follow the last one.
abbrev pub on_open : Bytes → ℕ → Bytes → Assoc Document → Option Document → Option (Assoc Document)
on_open uri version text docs (some d) = none
on_open uri version text docs none =
    some (insert uri (record { version = version; text = text }) docs)

abbrev pub on_close : Bytes → Assoc Document → Option Document → Option (Assoc Document)
on_close uri docs none = none
on_close uri docs (some d) = some (remove uri docs)

abbrev pub on_change :
    Bytes → ℕ → Bytes → Assoc Document → Option Document → Option (Assoc Document)
on_change uri version text docs none = none
on_change uri version text docs (some d) =
    if version == suc d.version
    then some (insert uri (record { version = version; text = text }) docs)
    else none

unfoldable pub receive : Note → Assoc Document → Option (Assoc Document)
receive (did_open uri language version text) docs = on_open uri version text docs (lookup uri docs)
receive (did_close uri) docs = on_close uri docs (lookup uri docs)
receive (did_change uri version text) docs = on_change uri version text docs (lookup uri docs)
receive (watched_file uri kind) docs = some docs

abbrev pub and_then :
    (Assoc Document → Option (Assoc Document)) → Option (Assoc Document) → Option (Assoc Document)
and_then f none = none
and_then f (some docs) = f docs

unfoldable pub receive_all : List Note → Assoc Document → Option (Assoc Document)
receive_all [] docs = some docs
receive_all (n ∷ ns) docs = and_then (receive_all ns) (receive n docs)

pub receive_all-append :
    (xs ys : List Note) (docs : Assoc Document)
    → receive_all (xs ++ ys) docs ≡ and_then (receive_all ys) (receive_all xs docs)
unfolding receive_all
receive_all-append [] ys docs = refl
receive_all-append (x ∷ xs) ys docs = on_received (λ d. receive_all-append xs ys d) (receive x docs)
  where
    on_received :
        ((d : Assoc Document)
          → receive_all (xs ++ ys) d ≡ and_then (receive_all ys) (receive_all xs d))
        → (o : Option (Assoc Document))
        → and_then (receive_all (xs ++ ys)) o
          ≡ and_then (receive_all ys) (and_then (receive_all xs) o)
    on_received later none = refl
    on_received later (some docs') = later docs'

pub receive_all-last :
    (sent : List Note) (n : Note) (docs docs' : Assoc Document)
    → receive_all sent [] ≡ some docs
    → receive n docs ≡ some docs'
    → receive_all (sent ++ (n ∷ [])) [] ≡ some docs'
unfolding receive_all
receive_all-last sent n docs docs' before now =
    receive_all-append sent (n ∷ []) []
    ∙ ap (and_then (receive_all (n ∷ []))) before
    ∙ ap (and_then (receive_all [])) now

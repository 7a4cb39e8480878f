-- ===== src/Lsp/Documents.antt =====
-- internal/lsp/client.go: the documents that a client has opened in clangd, and the notifications
-- that it sends about them. A function here is one section under `openMu`. What becomes of a
-- notification is an argument. The file system and the parse of a URI are arguments too.
pub mod Server
pub mod Protocol
pub mod Opened
mod Tests
use soft_ue_index.Base.{
  ℕ, zero, suc, ◌+◌, ◌-◌, ◌*◌, Bool, true, false, not, ◌&&◌, ◌||◌, Option, some, none, List, [],
  ◌∷◌, ◌++◌, length, take, drop, ltb, leb, ◌==◌, if◌then◌else◌,
}
use soft_ue_index.Base.Text.{Bytes, str, eqb, is_empty}
use soft_ue_index.Base.Assoc.{Assoc, lookup, insert, remove}
use soft_ue_index.Base.Result.{Result, ok, err, ◌>>=◌, unless}

-- The notifications, with what clangd reads in them.
pub data Note : Type 0 where
  did_open : Bytes → Bytes → ℕ → Bytes → Note
  did_close : Bytes → Note
  did_change : Bytes → ℕ → Bytes → Note
  watched_file : Bytes → ℕ → Note

-- `sent` is what has reached the server, and `closed` says that the client has terminated.
pub record Documents : Type 0 where
  pub opened : Assoc ℕ
  pub sent : List Note
  pub closed : Bool

unfoldable pub no_documents : Documents
no_documents = record { opened = []; sent = []; closed = false }

pub data DocumentError : Type 0 where
  not_sent : DocumentError
  not_local : DocumentError
  not_regular : DocumentError
  too_large : DocumentError
  system : Bytes → DocumentError

-- What becomes of a message that is sent: it is written; or the send fails, by the timeout or an
-- error of the transport, after the message has reached the server or before. After a failure the
-- client has terminated.
pub data Sending : Type 0 where
  written : Sending
  failed_after : Sending
  failed_before : Sending

-- Notify, and what follows when it succeeds
abbrev pub deliver :
    Sending
    → Note
    → Documents
    → (Documents → Result DocumentError Unit × Documents)
    → Result DocumentError Unit × Documents
deliver written note s rest = rest (record s { sent = s.sent ++ (note ∷ []) })
deliver failed_after note s rest =
    (err not_sent, record s { sent = s.sent ++ (note ∷ []); closed = true })
deliver failed_before note s rest = (err not_sent, record s { closed = true })

abbrev pub notify :
    Sending
    → Note
    → Documents
    → (Documents → Result DocumentError Unit × Documents)
    → Result DocumentError Unit × Documents
notify how note s rest = if s.closed then (err not_sent, s) else deliver how note s rest

abbrev pub set_version : Bytes → ℕ → Documents → Result DocumentError Unit × Documents
set_version uri version s = (ok tt, record s { opened = insert uri version s.opened })

abbrev pub forget : Bytes → Documents → Documents
forget uri s = record s { opened = remove uri s.opened }

abbrev pub done : Documents → Result DocumentError Unit × Documents
done s = (ok tt, s)

-- DidOpen
abbrev pub open_on :
    Sending → Bytes → Bytes → Bytes → Documents → Option ℕ → Result DocumentError Unit × Documents
open_on sends uri language text s (some version) = (ok tt, s)
open_on sends uri language text s none =
    notify sends (did_open uri language 1 text) s (set_version uri 1)

unfoldable pub open_document :
    Sending → Bytes → Bytes → Bytes → Documents → Result DocumentError Unit × Documents
open_document sends uri language text s = open_on sends uri language text s (lookup uri s.opened)

-- DidClose
unfoldable pub close_document : Sending → Bytes → Documents → Result DocumentError Unit × Documents
close_document sends uri s = notify sends (did_close uri) s (λ s. done (forget uri s))

abbrev pub change_type : Option ℕ → ℕ
change_type none = 2
change_type (some kind) = if kind == 1 then 1 else 2

-- SourceFileChanged
abbrev pub change_on :
    Sending
    → Bytes
    → Bytes
    → Option ℕ
    → Documents
    → Option ℕ
    → Result DocumentError Unit × Documents
change_on sends uri text watched s none =
    notify sends (watched_file uri (change_type watched)) s done
change_on sends uri text watched s (some version) =
    notify sends (did_change uri (suc version) text) s (set_version uri (suc version))

unfoldable pub source_file_changed :
    Sending → Bytes → Bytes → Option ℕ → Documents → Result DocumentError Unit × Documents
source_file_changed sends uri text watched s =
    change_on sends uri text watched s (lookup uri s.opened)

-- SourceFileRemoved, with its two notifications
abbrev pub remove_on :
    Sending → Sending → Bytes → Documents → Option ℕ → Result DocumentError Unit × Documents
remove_on closing sends uri s none = notify sends (watched_file uri 3) s done
remove_on closing sends uri s (some version) =
    notify closing (did_close uri) s (λ s. notify sends (watched_file uri 3) (forget uri s) done)

unfoldable pub source_file_removed :
    Sending → Sending → Bytes → Documents → Result DocumentError Unit × Documents
source_file_removed closing sends uri s = remove_on closing sends uri s (lookup uri s.opened)

-- What ensureDocumentOpen asks of packages url, filepath and os.
pub record Files : Type 0 where
  pub parse : Bytes → Option (Bytes × Bytes × Bytes)
  pub from_slash : Bytes → Bytes
  pub stat : Bytes → Result DocumentError (Bool × ℕ)
  pub read : Bytes → ℕ → Result DocumentError Bytes

abbrev pub max_index_seed_bytes : ℕ
max_index_seed_bytes = 4 * 1024 * 1024

-- `/C:/…` loses its first byte
abbrev pub drop_slash : Bytes → Bytes
drop_slash (a ∷ b ∷ c ∷ rest) =
    if (a == b'/' || a == 92) && c == b':' then b ∷ c ∷ rest else a ∷ b ∷ c ∷ rest
drop_slash path = path

abbrev pub local_path : Files → Option (Bytes × Bytes × Bytes) → Result DocumentError Bytes
local_path os none = err not_local
local_path os (some (scheme, host, path)) =
    if eqb scheme (str "file") && is_empty host
    then ok (drop_slash (os.from_slash path))
    else err not_local

-- the text of a document, if it is small enough
unfoldable pub document_text : Files → Bytes → Result DocumentError Bytes
document_text os uri = do
  path ← local_path os (os.parse uri)
  info ← os.stat path
  unless (not info.0) not_regular (
      unless (ltb max_index_seed_bytes info.1) too_large (do
        text ← os.read path (suc max_index_seed_bytes)
        unless (ltb max_index_seed_bytes (length text)) too_large (ok text)))

abbrev pub open_text :
    Sending → Bytes → Documents → Result DocumentError Bytes → Result DocumentError Unit × Documents
open_text sends uri s (err e) = (err e, s)
open_text sends uri s (ok text) =
    notify sends (did_open uri (str "cpp") 1 text) s (set_version uri 1)

abbrev pub ensure_on :
    Files → Sending → Bytes → Documents → Option ℕ → Result DocumentError Unit × Documents
ensure_on os sends uri s (some version) = (ok tt, s)
ensure_on os sends uri s none = open_text sends uri s (document_text os uri)

unfoldable pub ensure_document_open :
    Files → Sending → Bytes → Documents → Result DocumentError Unit × Documents
ensure_document_open os sends uri s = ensure_on os sends uri s (lookup uri s.opened)

-- The calls of a client about documents, in any order.
pub data DocumentOp : Type 0 where
  opens : Sending → Bytes → Bytes → Bytes → DocumentOp
  ensures : Files → Sending → Bytes → DocumentOp
  closes : Sending → Bytes → DocumentOp
  changes : Sending → Bytes → Bytes → Option ℕ → DocumentOp
  removes : Sending → Sending → Bytes → DocumentOp

unfoldable pub document_step : DocumentOp → Documents → Result DocumentError Unit × Documents
document_step (opens sends uri language text) s = open_document sends uri language text s
document_step (ensures os sends uri) s = ensure_document_open os sends uri s
document_step (closes sends uri) s = close_document sends uri s
document_step (changes sends uri text watched) s = source_file_changed sends uri text watched s
document_step (removes closing sends uri) s = source_file_removed closing sends uri s

unfoldable pub document_steps : List DocumentOp → Documents → Documents
document_steps [] s = s
document_steps (op ∷ ops) s = document_steps ops (document_step op s).1

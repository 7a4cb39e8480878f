-- ===== src/Lsp/Documents/Protocol.antt =====
-- The notifications of a client follow the protocol, and the client knows what the server has open.
use soft_ue_index.Base.{if_intro}
use soft_ue_index.Base.{
  ℕ, suc, true, false, Option, some, none, List, [], ◌∷◌, ◌++◌, ◌≡◌, refl, sym, ◌∙◌, arith,
}
use soft_ue_index.Base.Text.{Bytes, str}
use soft_ue_index.Base.Assoc.{Assoc, lookup, insert, remove, lookup-insert, lookup-remove}
use soft_ue_index.Base.Result.{Result, ok, err}
use soft_ue_index.Lsp.Documents.{
  did_open, did_close, did_change, watched_file, Documents, no_documents, DocumentError, open_on,
  change_on, change_type, remove_on, open_text, ensure_on, open_document, close_document,
  source_file_changed, source_file_removed, Files, document_text, ensure_document_open, DocumentOp,
  opens, ensures, closes, Sending, written, failed_after, failed_before, notify, deliver, Note,
  set_version, forget, done, changes, removes, document_step, document_steps,
}
use soft_ue_index.Lsp.Documents.Server.{Document, receive, receive_all, receive_all-last}

abbrev pub version_of : Option Document → Option ℕ
version_of none = none
version_of (some d) = some d.version

-- The server accepts all that has reached it, and while the client has not terminated its table is
-- what the server has open, with the versions.
pub record Agrees (s : Documents) : Type 0 where
  pub docs : Assoc Document
  pub received : receive_all s.sent [] ≡ some docs
  pub same : s.closed ≡ false → (uri : Bytes) → lookup uri s.opened ≡ version_of (lookup uri docs)

no_documents-Agrees : Agrees no_documents
unfolding no_documents receive_all lookup
no_documents-Agrees = record { docs = []; received = refl; same = λ live uri. refl }

-- what a table and the server's documents have in common stays so
both-insert :
    (opened : Assoc ℕ) (docs : Assoc Document) (uri : Bytes) (version : ℕ) (text : Bytes)
    → ((u : Bytes) → lookup u opened ≡ version_of (lookup u docs))
    → (u : Bytes)
    → lookup u (insert uri version opened)
      ≡ version_of (lookup u (insert uri (record { version = version; text = text }) docs))
both-insert opened docs uri version text h u = ground (
  arith,
  h u,
  lookup-insert uri u version opened,
  lookup-insert uri u (record { version = version; text = text }) docs,
)

both-remove :
    (opened : Assoc ℕ) (docs : Assoc Document) (uri : Bytes)
    → ((u : Bytes) → lookup u opened ≡ version_of (lookup u docs))
    → (u : Bytes) → lookup u (remove uri opened) ≡ version_of (lookup u (remove uri docs))
both-remove opened docs uri h u =
    ground (arith, h u, lookup-remove uri u opened, lookup-remove uri u docs)

closed_there : (o : Option Document) → none ≡ version_of o → o ≡ none
closed_there none e = refl
closed_there (some d) e = cc

open_there :
    (o : Option Document) (v : ℕ)
    → some v ≡ version_of o
    → (d : Document) × (o ≡ some d) × (d.version ≡ v)
open_there none v e = cc
open_there (some d) v e = (d, refl, cc)

-- The server has accepted what has reached it.
abbrev Heard : List Note → Type 0
Heard sent = (docs : Assoc Document) × (receive_all sent [] ≡ some docs)

-- A notification that the server accepts, however its sending ends, if what follows is right.
module _ (s : Documents) (h : Agrees s) where
  heard_last :
      (note : Note) (docs : Assoc Document)
      → receive note h.docs ≡ some docs
      → receive_all (s.sent ++ (note ∷ [])) [] ≡ some docs
  heard_last note docs e = receive_all-last s.sent note h.docs docs h.received e

  terminated :
      (opened : Assoc ℕ) (sent : List Note)
      → Heard sent
      → Agrees (record { opened = opened; sent = sent; closed = true })
  terminated opened sent (docs, e) = record { docs = docs; received = e; same = λ live. absurd cc }

  notify-Agrees :
      (how : Sending) (note : Note) (docs : Assoc Document)
      (rest : Documents → Result DocumentError Unit × Documents)
      → (s.closed ≡ false → receive note h.docs ≡ some docs)
      → (s.closed ≡ false
          → receive_all (s.sent ++ (note ∷ [])) [] ≡ some docs
          → Agrees (rest (record s { sent = s.sent ++ (note ∷ []) })).1)
      → Agrees (notify how note s rest).1
  notify-Agrees how note docs rest lawful then_ok =
      if_intro (λ (o : Result DocumentError Unit × Documents). Agrees o.1) s.closed _ _ (λ _. h)
        (λ live. by_sending live how)
    where
      by_sending : s.closed ≡ false → (how : Sending) → Agrees (deliver how note s rest).1
      by_sending live written = then_ok live (heard_last note docs (lawful live))
      by_sending live failed_after =
          terminated s.opened (s.sent ++ (note ∷ [])) (docs, heard_last note docs (lawful live))
      by_sending live failed_before = terminated s.opened s.sent (h.docs, h.received)

  sent_open :
      (how : Sending) (uri language text : Bytes)
      → lookup uri s.opened ≡ none
      → Agrees (notify how (did_open uri language 1 text) s (set_version uri 1)).1
  unfolding receive
  sent_open how uri language text closed =
      let docs = insert uri (record { version = 1; text = text }) h.docs in
      notify-Agrees how (did_open uri language 1 text) docs (set_version uri 1)
        (λ live. rw (closed_there (lookup uri h.docs) (sym closed ∙ h.same live uri), receive) refl)
        (λ live received. record {
          docs = docs;
          received = received;
          same = λ _. both-insert s.opened h.docs uri 1 text (h.same live);
        })

  sent_close :
      (how : Sending) (uri : Bytes) (v : ℕ)
      (rest : Documents → Result DocumentError Unit × Documents)
      → lookup uri s.opened ≡ some v
      → ((s' : Documents) → Agrees s' → Agrees (rest s').1)
      → Agrees (notify how (did_close uri) s (λ s. rest (forget uri s))).1
  unfolding receive
  sent_close how uri v rest open_now later =
      notify-Agrees how (did_close uri) (remove uri h.docs) (λ s. rest (forget uri s))
        (λ live.
          let (d, there, _) = open_there (lookup uri h.docs) v (sym open_now ∙ h.same live uri) in
          rw (there, receive) refl)
        (λ live received. later _ (record {
          docs = remove uri h.docs;
          received = received;
          same = λ _. both-remove s.opened h.docs uri (h.same live);
        }))

  sent_change :
      (how : Sending) (uri text : Bytes) (v : ℕ)
      → lookup uri s.opened ≡ some v
      → Agrees (notify how (did_change uri (suc v) text) s (set_version uri (suc v))).1
  unfolding receive
  sent_change how uri text v open_now =
      let docs = insert uri (record { version = suc v; text = text }) h.docs in
      notify-Agrees how (did_change uri (suc v) text) docs (set_version uri (suc v))
        (λ live.
          let (d, there, version) =
            open_there (lookup uri h.docs) v (sym open_now ∙ h.same live uri) in
          rw (there, receive) (ground (arith, version)))
        (λ live received. record {
          docs = docs;
          received = received;
          same = λ _. both-insert s.opened h.docs uri (suc v) text (h.same live);
        })

  sent_watched :
      (how : Sending) (uri : Bytes) (kind : ℕ)
      → Agrees (notify how (watched_file uri kind) s done).1
  unfolding receive
  sent_watched how uri kind =
      notify-Agrees how (watched_file uri kind) h.docs done (λ live. refl)
        (λ live received. record { docs = h.docs; received = received; same = h.same })

  open_on-Agrees :
      (sends : Sending) (uri language text : Bytes) (o : Option ℕ)
      → lookup uri s.opened ≡ o
      → Agrees (open_on sends uri language text s o).1
  open_on-Agrees sends uri language text (some v) e = h
  open_on-Agrees sends uri language text none e = sent_open sends uri language text e

  open_text-Agrees :
      (sends : Sending) (uri : Bytes) (r : Result DocumentError Bytes)
      → lookup uri s.opened ≡ none
      → Agrees (open_text sends uri s r).1
  open_text-Agrees sends uri (err x) e = h
  open_text-Agrees sends uri (ok text) e = sent_open sends uri (str "cpp") text e

  ensure_on-Agrees :
      (os : Files) (sends : Sending) (uri : Bytes) (o : Option ℕ)
      → lookup uri s.opened ≡ o
      → Agrees (ensure_on os sends uri s o).1
  ensure_on-Agrees os sends uri (some v) e = h
  ensure_on-Agrees os sends uri none e = open_text-Agrees sends uri (document_text os uri) e

  change_on-Agrees :
      (sends : Sending) (uri text : Bytes) (watched : Option ℕ) (o : Option ℕ)
      → lookup uri s.opened ≡ o
      → Agrees (change_on sends uri text watched s o).1
  change_on-Agrees sends uri text watched none e = sent_watched sends uri (change_type watched)
  change_on-Agrees sends uri text watched (some v) e = sent_change sends uri text v e

  close_document-Agrees :
      (sends : Sending) (uri : Bytes) (v : ℕ)
      → lookup uri s.opened ≡ some v
      → Agrees (close_document sends uri s).1
  unfolding close_document
  close_document-Agrees sends uri v e = sent_close sends uri v done e (λ s' h'. h')

remove_on-Agrees :
    (s : Documents)
    → Agrees s
    → (closes sends : Sending) (uri : Bytes) (o : Option ℕ) → lookup uri s.opened ≡ o
    → Agrees (remove_on closes sends uri s o).1
remove_on-Agrees s h closing sends uri none e = sent_watched s h sends uri 3
remove_on-Agrees s h closing sends uri (some v) e =
    sent_close s h closing uri v (λ s'. notify sends (watched_file uri 3) s' done) e
      (λ s' h'. sent_watched s' h' sends uri 3)

-- DidClose is called for documents that are open, and the others for any.
abbrev pub Lawful : DocumentOp → Documents → Type 0
Lawful (closes sends uri) s = (v : ℕ) × (lookup uri s.opened ≡ some v)
Lawful _ s = Unit

abbrev pub AllLawful : List DocumentOp → Documents → Type 0
AllLawful [] s = Unit
AllLawful (op ∷ ops) s = Lawful op s × AllLawful ops (document_step op s).1

document_step-Agrees :
    (op : DocumentOp) (s : Documents) → Lawful op s → Agrees s → Agrees (document_step op s).1
unfolding document_step open_document ensure_document_open source_file_changed source_file_removed
document_step-Agrees (opens sends uri language text) s l h =
    open_on-Agrees s h sends uri language text (lookup uri s.opened) refl
document_step-Agrees (ensures os sends uri) s l h =
    ensure_on-Agrees s h os sends uri (lookup uri s.opened) refl
document_step-Agrees (closes sends uri) s l h = close_document-Agrees s h sends uri l.0 l.1
document_step-Agrees (changes sends uri text watched) s l h =
    change_on-Agrees s h sends uri text watched (lookup uri s.opened) refl
document_step-Agrees (removes closing sends uri) s l h =
    remove_on-Agrees s h closing sends uri (lookup uri s.opened) refl

-- The calls of a client refine the protocol: whatever calls are made on a new client, in any order,
-- DidClose only for documents that are open, and whichever of its messages cannot be sent, or reach
-- the server although their sending fails, the server accepts every notification that reaches it;
-- and while no sending has failed, the client's table holds exactly the documents that the server
-- has open, each with its version.
pub document_steps-Agrees :
    (ops : List DocumentOp) → AllLawful ops no_documents → Agrees (document_steps ops no_documents)
unfolding document_steps
document_steps-Agrees ops lawful = from_any ops no_documents lawful no_documents-Agrees
  where
    from_any :
        (ops : List DocumentOp) (s : Documents)
        → AllLawful ops s
        → Agrees s
        → Agrees (document_steps ops s)
    from_any [] s l h = h
    from_any (op ∷ ops) s l h =
        from_any ops (document_step op s).1 l.1 (document_step-Agrees op s l.0 h)

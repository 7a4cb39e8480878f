-- ===== src/Lsp/Documents/Tests.antt =====
-- A document that is opened by a query, changes twice and is removed.
use soft_ue_index.Base.{◌≡◌, refl, true, some, none, List, [], ◌∷◌}
use soft_ue_index.Base.Text.{str, eqb}
use soft_ue_index.Base.Assoc.{lookup, insert, remove}
use soft_ue_index.Base.Result.{ok}
use soft_ue_index.Lsp.Documents.{
  did_open, did_close, did_change, watched_file, no_documents, Files, document_text, DocumentOp,
  written, failed_after, ensures, closes, changes, removes, close_document, document_step,
  document_steps, open_document, ensure_document_open, source_file_changed, source_file_removed,
}
use soft_ue_index.Lsp.Documents.Protocol.{Agrees, AllLawful, document_steps-Agrees}
use soft_ue_index.Lsp.Documents.Opened.{Opened, document_text_bound}

abbrev disk : Files
disk = record {
  parse = λ uri. some (str "file", [], str "/C:/a.cpp");
  from_slash = λ p. p;
  stat = λ p. ok (true, 3);
  read = λ p n. ok (str "int");
}

abbrev edits : List DocumentOp
edits =
    ensures disk written (str "a")
    ∷ changes written (str "a") (str "x") none
    ∷ changes written (str "b") (str "y") (some 1)
    ∷ closes written (str "a")
    ∷ ensures disk written (str "c")
    ∷ removes written failed_after (str "c")
    ∷ ensures disk written (str "d")
    ∷ []

edited :
    (document_steps edits no_documents).sent
    ≡ did_open (str "a") (str "cpp") 1 (str "int")
      ∷ did_change (str "a") 2 (str "x")
      ∷ watched_file (str "b") 1
      ∷ did_close (str "a")
      ∷ did_open (str "c") (str "cpp") 1 (str "int")
      ∷ did_close (str "c")
      ∷ watched_file (str "c") 3
      ∷ []
unfolding document_steps document_step open_document ensure_document_open source_file_changed
    close_document source_file_removed document_text no_documents lookup insert remove eqb str
edited = refl

edits-AllLawful : AllLawful edits no_documents
unfolding document_step open_document ensure_document_open source_file_changed close_document
    source_file_removed document_text no_documents lookup insert remove eqb str
edits-AllLawful = (tt, (tt, (tt, ((2, refl), (tt, (tt, (tt, tt)))))))

document_steps-Agrees_example : Agrees (document_steps edits no_documents)
document_steps-Agrees_example = document_steps-Agrees edits edits-AllLawful

read_text : document_text disk (str "a") ≡ ok (str "int")
unfolding document_text str eqb
read_text = refl

document_text_bound_example : Opened disk (str "a") (str "int")
document_text_bound_example = document_text_bound disk (str "a") read_text

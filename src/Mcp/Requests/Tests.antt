-- ===== src/Mcp/Requests/Tests.antt =====
-- Three lines of four bytes at most, of which the last one is refused.
use soft_ue_index.Base.{ℕ, arith, Option, ◌≡◌, refl, false, some, none, [], ◌∷◌, ◌++◌, List}
use soft_ue_index.Base.Text.{Bytes, str, contains, has_prefix}
use soft_ue_index.Base.Strings.{trim_left, trim_right, is_space}
use soft_ue_index.Lsp.Framing.{read_slice}
use soft_ue_index.Mcp.Requests.{
  Json, bom, validate_request_id, new_json_reader, json_read, json_reads,
}
use soft_ue_index.Mcp.Stdio.{concat, newline_at}
use soft_ue_index.Mcp.Requests.{proxy_frames, end_of_file}
use soft_ue_index.Mcp.Requests.Proxied.{Takes, proxy_frames_lem}
use soft_ue_index.Mcp.Requests.Served.{AfterReads, json_reads_sound}

abbrev no_json : Json
no_json = record {
  request = λ s. none;
  string = λ s. none;
  is_int = λ s. false;
  object = λ s. none;
}

abbrev lines : Bytes
lines = str "{1}" ++ (10 ∷ str "{2}") ++ (10 ∷ str "[3]") ++ (10 ∷ [])

two_lines :
    (json_reads no_json (3 ∷ 9 ∷ 9 ∷ 9 ∷ []) (new_json_reader lines 4 9)).0
    ≡ str "{1}" ++ (10 ∷ str "{2}") ++ (10 ∷ [])
unfolding json_reads json_read new_json_reader read_slice validate_request_id str contains
    has_prefix trim_left trim_right is_space
two_lines = refl

-- a mark at the start of the stream is dropped, and the line without a newline is its end
marked :
    json_reads no_json
      (9 ∷ 9 ∷ 9 ∷ [])
      (new_json_reader (bom ++ (str "{1}" ++ (10 ∷ str "{2}"))) 7 9)
    ≡ (
      str "{1}" ++ (10 ∷ str "{2}"),
      some end_of_file,
      record { stream = []; max_frame = 7; max_string_id = 9; pending = []; first_frame = false },
    )
unfolding json_reads json_read new_json_reader read_slice validate_request_id str contains
    has_prefix trim_left trim_right is_space
marked = refl

json_reads_sound_example :
    let r = new_json_reader lines 4 9 in
    let read = json_reads no_json (3 ∷ 9 ∷ 9 ∷ 9 ∷ []) r in
    AfterReads no_json r read.0 read.1 read.2
json_reads_sound_example = json_reads_sound no_json lines 4 9 (3 ∷ 9 ∷ 9 ∷ 9 ∷ [])

-- a writer that takes a byte at a time
abbrev byte_writer : Bytes → Option ℕ
byte_writer payload = some 1

byte_writer-Takes : (c : ℕ) (payload : Bytes) → Takes byte_writer (c ∷ payload)
byte_writer-Takes c payload = (1, refl, omega arith, omega arith)

abbrev requests : List Bytes
requests = (str "{1}" ++ (10 ∷ [])) ∷ (str "{}" ++ (10 ∷ [])) ∷ []

proxy_frames_lem_example :
    proxy_frames 3 no_json 4 9 byte_writer (concat requests) ≡ (concat requests, end_of_file)
unfolding str newline_at validate_request_id trim_left trim_right is_space
proxy_frames_lem_example =
    proxy_frames_lem no_json 4 9 byte_writer byte_writer-Takes requests
      (((refl, omega arith, omega arith), refl), (((refl, omega arith, omega arith), refl), tt)) 3
      (omega arith)

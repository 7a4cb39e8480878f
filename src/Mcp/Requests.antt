-- ===== src/Mcp/Requests.antt =====
-- internal/mcpserver/stdio.go: the requests that come in, one to a line: their validation, the
-- reader in front of the SDK, and the proxy between two streams. JSON is an argument; a stream is
-- what is left of its bytes, and ends with them.
pub mod Proxied
pub mod Lines
pub mod Served
mod Tests
use soft_ue_index.Base.{
  ℕ, zero, suc, ◌+◌, ◌-◌, max, Bool, true, false, not, ◌&&◌, ◌||◌, Option, some, none, List, [],
  ◌∷◌, ◌++◌, length, take, drop, ltb, leb, ◌==◌, if◌then◌else◌, min,
}
use soft_ue_index.Base.Text.{Bytes, str, eqb, is_empty, one_of, has_prefix, contains}
use soft_ue_index.Base.Strings.{trim_space}
use soft_ue_index.Base.Assoc.{Assoc, lookup}
use soft_ue_index.Lsp.Framing.{Slice, found, full, at_end, read_slice}

-- what JSON finds in a request; a missing part is empty
pub record Request : Type 0 where
  pub id : Bytes
  pub method : Bytes
  pub name : Bytes
  pub arguments : Bytes

-- json.Unmarshal into a request, a string, an int, and an object of raw values
pub record Json : Type 0 where
  pub request : Bytes → Option Request
  pub string : Bytes → Option Bytes
  pub is_int : Bytes → Bool
  pub object : Bytes → Option (Assoc Bytes)

abbrev pub max_method_name_bytes : ℕ
max_method_name_bytes = 128

abbrev pub max_tool_name_bytes : ℕ
max_tool_name_bytes = 128

-- `true` when a value has the type
abbrev pub is_string : Json → Bytes → Bool
is_string j raw = elim (j.string raw) [ none ↦ false | some s ↦ true ]

abbrev pub absent_or : (Bytes → Bool) → Option Bytes → Bool
absent_or f none = true
absent_or f (some raw) = f raw

abbrev pub position_fields : Json → Option (Assoc Bytes) → Bool
position_fields j none = false
position_fields j (some fields) =
    absent_or j.is_int (lookup (str "line") fields)
    && (absent_or j.is_int (lookup (str "character") fields)
        && absent_or (is_string j) (lookup (str "path") fields))

-- validatePositionArgument: `true` when it is accepted
unfoldable pub validate_position_argument : Json → Bytes → Bool
validate_position_argument j raw = position_fields j (j.object raw)

-- the fields of a tool: strings, ints and objects
pub record Fields : Type 0 where
  pub strings : List Bytes
  pub ints : List Bytes
  pub objects : List Bytes

unfoldable pub fields_of : Bytes → Option Fields
fields_of name =
    if eqb name (str "list_projects")
    then some (record { strings = []; ints = str "max_items" ∷ []; objects = [] })
    else if eqb name (str "project_status")
    then some (record { strings = str "project_id" ∷ []; ints = []; objects = [] })
    else if eqb name (str "search_symbols")
    then some (record {
      strings = str "project_id" ∷ str "query" ∷ [];
      ints = str "max_items" ∷ [];
      objects = [];
    })
    else if one_of name (
        str "find_definition"
        ∷ str "find_references"
        ∷ str "find_implementations"
        ∷ str "hover"
        ∷ [])
    then some (record {
      strings = str "project_id" ∷ [];
      ints = str "max_items" ∷ [];
      objects = str "position" ∷ [];
    })
    else if eqb name (str "document_symbols")
    then some (record {
      strings = str "project_id" ∷ str "path" ∷ [];
      ints = str "max_items" ∷ [];
      objects = [];
    })
    else if eqb name (str "call_hierarchy")
    then some (record {
      strings = str "project_id" ∷ str "direction" ∷ [];
      ints = str "max_items" ∷ str "max_depth" ∷ [];
      objects = str "position" ∷ [];
    })
    else if eqb name (str "read_symbol_source")
    then some (record {
      strings = str "project_id" ∷ str "path" ∷ [];
      ints = str "start_line" ∷ str "end_line" ∷ str "max_bytes" ∷ [];
      objects = [];
    })
    else none

abbrev pub field_accepted : Json → Fields → Bytes → Bytes → Bool
field_accepted j f field value =
    if one_of field f.strings
    then is_string j value
    else if one_of field f.ints
    then j.is_int value
    else if one_of field f.objects
    then validate_position_argument j value
    else true

-- the loop over the arguments
unfoldable pub fields_accepted : Json → Fields → Assoc Bytes → Bool
fields_accepted j f [] = true
fields_accepted j f ((field, value) ∷ rest) =
    field_accepted j f field value && fields_accepted j f rest

abbrev pub arguments_accepted : Json → Option Fields → Option (Assoc Bytes) → Bool
arguments_accepted j fields none = false
arguments_accepted j none (some arguments) = true
arguments_accepted j (some f) (some arguments) = fields_accepted j f arguments

unfoldable pub validate_tool_arguments : Json → Bytes → Bytes → Bool
validate_tool_arguments j name raw =
    if is_empty raw || eqb (trim_space raw) (str "null")
    then true
    else arguments_accepted j (fields_of name) (j.object raw)

abbrev pub is_batch : Bytes → Bool
is_batch [] = false
is_batch (c ∷ s) = c == b'['

abbrev pub short_string : ℕ → Option Bytes → Bool
short_string max_string_id none = true
short_string max_string_id (some id) = leb (length id) max_string_id

abbrev pub request_accepted : Json → ℕ → Option Request → Bool
request_accepted j max_string_id none = true
request_accepted j max_string_id (some r) =
    if ltb max_method_name_bytes (length r.method) || ltb max_tool_name_bytes (length r.name)
    then false
    else if eqb r.method (str "tools/call") && not (validate_tool_arguments j r.name r.arguments)
    then false
    else if is_empty r.id
    then true
    else leb (length r.id) max_string_id && short_string max_string_id (j.string r.id)

-- validateRequestID: `true` when the line is accepted
unfoldable pub validate_request_id : Json → ℕ → Bytes → Bool
validate_request_id j max_string_id line =
    if is_batch (trim_space line) then false else request_accepted j max_string_id (j.request line)

-- How reading or forwarding ends.
pub data StreamError : Type 0 where
  end_of_file frame_too_large write_failed short_write : StreamError

-- the size of a bufio.Reader that is made for frames: at least 16
abbrev pub frame_buffer : ℕ → ℕ
frame_buffer max_frame = max 16 (suc max_frame)

-- readFrame: a frame and what is left of the stream
abbrev pub frame_of : ℕ → Bytes × Slice × Bytes → Option (Bytes × Bytes) × StreamError
frame_of max_frame (line, full, rest) = (none, frame_too_large)
frame_of max_frame (line, found, rest) =
    if ltb max_frame (length line)
    then (none, frame_too_large)
    else (some (line, rest), end_of_file)
frame_of max_frame (line, at_end, rest) =
    if ltb max_frame (length line)
    then (none, frame_too_large)
    else (none, if is_empty line then end_of_file else frame_too_large)

unfoldable pub read_request_frame : ℕ → Bytes → Option (Bytes × Bytes) × StreamError
read_request_frame max_frame s = frame_of max_frame (read_slice (frame_buffer max_frame) s)

-- a round of writeAll: what a Write took of a payload, or that it failed
abbrev pub after_write :
    (Bytes → Bytes × Option StreamError) → Bytes → Option ℕ → Bytes × Option StreamError
after_write next payload none = ([], some write_failed)
after_write next payload (some n) =
    let rest = next (drop n payload) in
    if n == 0 then ([], some short_write) else (take n payload ++ rest.0, rest.1)

-- writeAll, on fuel: `takes` says how many bytes of a payload a Write takes, or `none` when it
-- fails. The result is what was written.
unfoldable pub write_all : ℕ → (Bytes → Option ℕ) → Bytes → Bytes × Option StreamError
write_all fuel takes [] = ([], none)
write_all zero takes (c ∷ payload) = ([], some short_write)
write_all (suc fuel) takes (c ∷ payload) =
    after_write (write_all fuel takes) (c ∷ payload) (takes (c ∷ payload))

-- what follows the write of a frame
abbrev pub go_on : Bytes × StreamError → Bytes × Option StreamError → Bytes × StreamError
go_on later (written, some e) = (written, e)
go_on later (written, none) = (written ++ later.0, later.1)

-- a round of proxyFrames
abbrev pub after_frame :
    (Bytes → Bytes × StreamError)
    → Json
    → ℕ
    → (Bytes → Option ℕ)
    → Option (Bytes × Bytes) × StreamError
    → Bytes × StreamError
after_frame next j max_id takes (none, e) = ([], e)
after_frame next j max_id takes (some (line, rest), e) =
    let forwarded = go_on (next rest) (write_all (length line) takes line) in
    if validate_request_id j max_id line then forwarded else ([], frame_too_large)

-- proxyFrames, on fuel: what was forwarded, and why it ended. A round takes a frame, which has at
-- least a byte.
unfoldable pub proxy_frames : ℕ → Json → ℕ → ℕ → (Bytes → Option ℕ) → Bytes → Bytes × StreamError
proxy_frames zero j max_frame max_id takes s = ([], end_of_file)
proxy_frames (suc fuel) j max_frame max_id takes s =
    after_frame (proxy_frames fuel j max_frame max_id takes) j max_id takes
      (read_request_frame max_frame s)

-- The reader in front of the SDK.
pub record JsonReader : Type 0 where
  pub stream : Bytes
  pub max_frame : ℕ
  pub max_string_id : ℕ
  pub pending : Bytes
  pub first_frame : Bool

unfoldable pub new_json_reader : Bytes → ℕ → ℕ → JsonReader
new_json_reader stream max_frame max_string_id = record {
  stream = stream;
  max_frame = max_frame;
  max_string_id = max_string_id;
  pending = [];
  first_frame = true;
}

abbrev pub bom : Bytes
bom = 239 ∷ 187 ∷ 191 ∷ []

-- a line that may be kept as pending, without the mark at the start of the stream; `none` when it is
-- refused
abbrev pub without_bom : Bool → Bytes → Option Bytes
without_bom first line =
    if contains line bom
    then (if first && has_prefix line bom then some (drop 3 line) else none)
    else some line

abbrev pub keep_line : Json → JsonReader → Option Bytes → Option StreamError × JsonReader
keep_line j r none = (some frame_too_large, r)
keep_line j r (some line) =
    if validate_request_id j r.max_string_id line
    then (none, record r { pending = line; first_frame = false })
    else (some frame_too_large, record r { first_frame = false })

abbrev pub is_full : Slice → Bool
is_full full = true
is_full _ = false

-- what a ReadSlice leads to: a new pending line
abbrev pub accept_line : Json → JsonReader → Bytes × Slice × Bytes → Option StreamError × JsonReader
accept_line j r (line, how, rest) =
    let after = record r { stream = rest } in
    if is_full how || ltb r.max_frame (length line)
    then (some frame_too_large, after)
    else if is_empty line
    then (some end_of_file, after)
    else keep_line j after (without_bom r.first_frame line)

abbrev pub hand_out : ℕ → Option StreamError × JsonReader → Bytes × Option StreamError × JsonReader
hand_out n (some e, r) = ([], some e, r)
hand_out n (none, r) = (take n r.pending, none, record r { pending = drop n r.pending })

-- Read into a buffer of `n` bytes: the bytes, or an error
unfoldable pub json_read : Json → ℕ → JsonReader → Bytes × Option StreamError × JsonReader
json_read j n r = hand_out n (
    if is_empty r.pending
    then accept_line j r (read_slice (frame_buffer r.max_frame) r.stream)
    else (none, r))

-- what a Read gave and what the Reads behind it give, which an error stops
abbrev pub read_on :
    Bytes × Option StreamError × JsonReader
    → Bytes × Option StreamError × JsonReader
    → Bytes × Option StreamError × JsonReader
read_on (bytes, some e, r) later = (bytes, some e, r)
read_on (bytes, none, r) (more, failed, last) = (bytes ++ more, failed, last)

-- Reads one after another, up to the first error: all the bytes that they gave
unfoldable pub json_reads : Json → List ℕ → JsonReader → Bytes × Option StreamError × JsonReader
json_reads j [] r = ([], none, r)
json_reads j (n ∷ ns) r = let read = json_read j n r in read_on read (json_reads j ns read.2)

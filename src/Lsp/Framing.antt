-- ===== src/Lsp/Framing.antt =====
-- internal/lsp/jsonrpc.go: the frames of JSON-RPC on a stream of bytes. A reader is what is left of
-- the stream; JSON is done before and after.
pub mod RoundTrip
mod Tests
use soft_ue_index.Base.{
  ℕ, zero, suc, ◌+◌, ◌*◌, Bool, true, false, Option, some, none, List, [], ◌∷◌, ◌++◌, length, take,
  drop, ltb, ◌==◌, if◌then◌else◌,
}
use soft_ue_index.Base.Text.{Bytes, str, eqb, to_lower}
use soft_ue_index.Base.Int.{ℤ, pos, negsuc, or_default}
use soft_ue_index.Base.Strings.{trim_space, cut_at, atoi, show}
use soft_ue_index.Base.Result.{Result, ok, err, ◌>>=◌, unless}

pub data FrameError : Type 0 where
  message_too_large : FrameError
  invalid_header : Bytes → FrameError
  invalid_content_length : FrameError
  missing_content_length : FrameError
  end_of_stream : FrameError

abbrev pub default_max_message_bytes : ℕ
default_max_message_bytes = 8 * 1024 * 1024

abbrev pub default_max_header_bytes : ℕ
default_max_header_bytes = 32 * 1024

abbrev pub line_limit : ℕ
line_limit = 8 * 1024

-- the end of a line, an empty line
abbrev pub crlf : Bytes
crlf = 13 ∷ 10 ∷ []

unfoldable pub write_frame : Bytes → Bytes
write_frame body = str "Content-Length: " ++ (show (length body) ++ (crlf ++ (crlf ++ body)))

-- How a ReadSlice ends: at a newline, with a full buffer, or at the end of the stream.
pub data Slice : Type 0 where
  found full at_end : Slice

-- ReadSlice('\n') with `space` left in the buffer: what it returns, how it ends, and what is left
unfoldable pub read_slice : ℕ → Bytes → Bytes × Slice × Bytes
read_slice zero s = ([], full, s)
read_slice (suc space) [] = ([], at_end, [])
read_slice (suc space) (c ∷ s) =
    let (chunk, how, rest) = read_slice space s in
    if c == 10 then (c ∷ [], found, s) else (c ∷ chunk, how, rest)

-- the size of a bufio.Reader's buffer
abbrev pub buffer_size : ℕ
buffer_size = 4096

-- what a round of readHeaderLine does with its chunk
abbrev pub after_slice :
    (Bytes → Bytes → Result FrameError (Bytes × Bytes))
    → ℕ
    → Bytes
    → Bytes × Slice × Bytes
    → Result FrameError (Bytes × Bytes)
after_slice next limit line (chunk, how, rest) =
    unless (ltb limit (length line + length chunk)) message_too_large (elim how [
      | found ↦ ok (line ++ chunk, rest)
      | full ↦ next (line ++ chunk) rest
      | at_end ↦ err end_of_stream
    ])

-- The loop of readHeaderLine, on fuel: a round that does not end it takes a full buffer.
unfoldable pub read_header_line : ℕ → ℕ → Bytes → Bytes → Result FrameError (Bytes × Bytes)
read_header_line zero limit line s = err end_of_stream
read_header_line (suc fuel) limit line s =
    after_slice (read_header_line fuel limit) limit line (read_slice buffer_size s)

-- a length that Atoi read
abbrev pub content_length : Option ℤ → Result FrameError (Option ℕ)
content_length none = err invalid_content_length
content_length (some (pos n)) = ok (some n)
content_length (some (negsuc n)) = err invalid_content_length

-- what a header says of the length, which was `length` before it
abbrev pub header_of : Bytes → Option ℕ → Option (Bytes × Bytes) → Result FrameError (Option ℕ)
header_of text known none = err (invalid_header text)
header_of text known (some (name, value)) =
    if eqb (to_lower (trim_space name)) (to_lower (str "Content-Length"))
    then content_length (atoi (trim_space value))
    else ok known

-- a header line without the space around it; an empty one ends the headers
abbrev pub on_text :
    (Option ℕ → ℕ → Bytes → Result FrameError (Option ℕ × Bytes))
    → Option ℕ
    → ℕ
    → Bytes
    → Bytes
    → Result FrameError (Option ℕ × Bytes)
on_text next known header_bytes rest [] = ok (known, rest)
on_text next known header_bytes rest (c ∷ text) = do
  now ← header_of (c ∷ text) known (cut_at (str ":") (c ∷ text))
  next now header_bytes rest

-- what a round of readFrame's loop does with a line and what is left behind it
abbrev pub after_line :
    (Option ℕ → ℕ → Bytes → Result FrameError (Option ℕ × Bytes))
    → Option ℕ
    → ℕ
    → Bytes × Bytes
    → Result FrameError (Option ℕ × Bytes)
after_line next known header_bytes (line, rest) =
    unless (ltb default_max_header_bytes (header_bytes + length line)) message_too_large
      (on_text next known (header_bytes + length line) rest (trim_space line))

-- The loop over the header lines, on fuel: the length, if one was given, and what is left. A line
-- has at least one byte.
unfoldable pub read_headers : ℕ → Option ℕ → ℕ → Bytes → Result FrameError (Option ℕ × Bytes)
read_headers zero known header_bytes s = err end_of_stream
read_headers (suc fuel) known header_bytes s = do
  read ← read_header_line (suc (length s)) line_limit [] s
  after_line (read_headers fuel) known header_bytes read

-- io.ReadFull of so many bytes
abbrev pub read_body : ℕ → Option ℕ × Bytes → Result FrameError (Bytes × Bytes)
read_body max (none, s) = err missing_content_length
read_body max (some n, s) =
    unless (ltb max n) message_too_large
      (unless (ltb (length s) n) end_of_stream (ok (take n s, drop n s)))

-- readFrame: the body, and what is left of the stream
unfoldable pub read_frame : ℤ → Bytes → Result FrameError (Bytes × Bytes)
read_frame max s = do
  headers ← read_headers (suc (length s)) none 0 s
  read_body (or_default max default_max_message_bytes) headers

-- readLoop's reads: so many frames, one after another
unfoldable pub read_frames : ℕ → ℤ → Bytes → Result FrameError (List Bytes × Bytes)
read_frames zero max s = ok ([], s)
read_frames (suc n) max s = do
  first ← read_frame max s
  others ← read_frames n max first.1
  ok (first.0 ∷ others.0, others.1)

unfoldable pub write_frames : List Bytes → Bytes
write_frames [] = []
write_frames (body ∷ rest) = write_frame body ++ write_frames rest

-- ===== src/Lsp/Framing/RoundTrip.antt =====
-- What writeFrame wrote, readFrame reads.
use soft_ue_index.Base.{
  ℕ, zero, suc, ◌+◌, ◌≤◌, ◌<◌, ◌≡◌, refl, sym, ap, ◌∙◌, true, false, some, none, List, [], ◌∷◌,
  ◌++◌, length, take, drop, ltb, ◌==◌, arith, append_assoc, length-append, All, All-append,
}
use soft_ue_index.Base.Text.{Bytes, str, eqb, to_lower, lower_byte, has_prefix}
use soft_ue_index.Base.Int.{ℤ, pos, or_default}
use soft_ue_index.Base.Strings.{
  trim_space, trim_left, trim_right, is_space, cut_at, atoi, show, IsDigits, is_digit, max_int,
  atoi-show, digits-IsDigits, length-digits, digits-nonempty,
}
use soft_ue_index.Base.Result.{ok, unless_not, ◌>>=◌}
use soft_ue_index.Lsp.Framing.{
  message_too_large, end_of_stream, found, line_limit, crlf, write_frame, read_slice,
  read_header_line, header_of, read_headers, content_length, after_slice, after_line, on_text,
  read_body, read_frame, read_frames, write_frames, default_max_message_bytes,
  default_max_header_bytes,
}

abbrev OneLine : Bytes → Type 0
OneLine s = All (λ c. (c == 10) ≡ false) s

read_slice-found :
    (text rest : Bytes) (space : ℕ)
    → OneLine text
    → length text < space
    → read_slice space (text ++ (10 ∷ rest)) ≡ (text ++ (10 ∷ []), found, rest)
unfolding read_slice
read_slice-found text rest zero h lt = absurd (omega arith)
read_slice-found [] rest (suc space) h lt = refl
read_slice-found (c ∷ text) rest (suc space) h lt =
    let later = read_slice-found text rest space h.1 (omega arith) in ground (arith, h.0, later)

not_above : (a b : ℕ) → a ≤ b → ltb b a ≡ false
not_above a b h = ground arith

read_header_line-one :
    (fuel : ℕ) (text rest : Bytes)
    → OneLine text
    → length text < 4096
    → read_header_line (suc fuel) line_limit [] (text ++ (10 ∷ rest)) ≡ ok (text ++ (10 ∷ []), rest)
unfolding read_header_line
read_header_line-one fuel text rest h lt =
    ap (after_slice (read_header_line fuel line_limit) line_limit [])
      (read_slice-found text rest 4096 h lt)
    ∙ unless_not _ message_too_large _ (
        not_above (0 + length (text ++ (10 ∷ []))) line_limit
          (omega (arith, length-append text (10 ∷ []))))

digit_no_space : (c : ℕ) → is_digit c ≡ true → is_space c ≡ false
unfolding is_space
digit_no_space c h = ground (arith, h)

digit_no_newline : (c : ℕ) → is_digit c ≡ true → (c == 10) ≡ false
digit_no_newline c h = ground (arith, h)

digits-OneLine : (s : Bytes) → IsDigits s → OneLine s
digits-OneLine [] h = tt
digits-OneLine (c ∷ s) h = (digit_no_newline c h.0, digits-OneLine s h.1)

-- a text of digits is not trimmed, and what follows it is
trim_right_line : (s : Bytes) → IsDigits s → trim_right (s ++ crlf) ≡ s
unfolding trim_right is_space
trim_right_line [] h = refl
trim_right_line (c ∷ s) h = ground (arith, trim_right_line s h.1, digit_no_space c h.0)

trim_right_digits : (s : Bytes) → IsDigits s → trim_right s ≡ s
unfolding trim_right
trim_right_digits [] h = refl
trim_right_digits (c ∷ s) h = ground (arith, trim_right_digits s h.1, digit_no_space c h.0)

trim_right-append :
    (p s t : Bytes) (d : ℕ) → trim_right s ≡ d ∷ t → trim_right (p ++ s) ≡ p ++ (d ∷ t)
unfolding trim_right
trim_right-append [] s t d h = h
trim_right-append (c ∷ []) s t d h = rw h refl
trim_right-append (c ∷ b ∷ p) s t d h = rw (trim_right-append (b ∷ p) s t d h) refl

trim_value : (d : ℕ) (s : Bytes) → IsDigits (d ∷ s) → trim_space (32 ∷ d ∷ s) ≡ d ∷ s
unfolding trim_left is_space
trim_value d s h = rw (digit_no_space d h.0) (trim_right_digits (d ∷ s) h)

label : Bytes
label = str "Content-Length: "

-- the line that writeFrame writes
trim_line :
    (d : ℕ) (s : Bytes)
    → IsDigits (d ∷ s)
    → trim_space (label ++ ((d ∷ s) ++ crlf)) ≡ label ++ (d ∷ s)
unfolding trim_left is_space label str
trim_line d s h =
    trim_right-append (str "Content-Length: ") ((d ∷ s) ++ crlf) s d (trim_right_line (d ∷ s) h)

header_of_line :
    (d : ℕ) (s : Bytes) (n : ℕ)
    → IsDigits (d ∷ s)
    → atoi (d ∷ s) ≡ some (pos n)
    → header_of (label ++ (d ∷ s)) none (cut_at (str ":") (label ++ (d ∷ s))) ≡ ok (some n)
unfolding trim_left trim_right is_space label str cut_at has_prefix eqb to_lower lower_byte
header_of_line d s n h e =
    ap (λ v. content_length (atoi v)) (trim_value d s h) ∙ ap content_length e

label-OneLine : OneLine label
unfolding label str
label-OneLine = (
  refl,
  (
    refl,
    (
      refl,
      (
        refl,
        (
          refl,
          (
            refl,
            (refl, (refl, (refl, (refl, (refl, (refl, (refl, (refl, (refl, (refl, tt)))))))))),
          ),
        ),
      ),
    ),
  ),
)

length-label : length label ≡ 16
unfolding label str
length-label = refl

-- the line, without its newline
line_OneLine : (s : Bytes) → IsDigits s → OneLine (label ++ (s ++ (13 ∷ [])))
line_OneLine s h =
    All-append _ label _ label-OneLine (All-append _ s _ (digits-OneLine s h) (refl, tt))

line_assoc :
    (s rest : Bytes) → (label ++ (s ++ (13 ∷ []))) ++ (10 ∷ rest) ≡ label ++ (s ++ (13 ∷ 10 ∷ rest))
line_assoc s rest =
    append_assoc label (s ++ (13 ∷ [])) (10 ∷ rest)
    ∙ ap (λ x. label ++ x) (append_assoc s (13 ∷ []) (10 ∷ rest))

length_line : (s : Bytes) → length (label ++ (s ++ (13 ∷ []))) ≡ 17 + length s
length_line s =
    omega (arith, length-label, length-append label (s ++ (13 ∷ [])), length-append s (13 ∷ []))

read_line :
    (fuel : ℕ) (s rest : Bytes)
    → IsDigits s
    → length s ≤ 20
    → read_header_line (suc fuel) line_limit [] (label ++ (s ++ (13 ∷ 10 ∷ rest)))
      ≡ ok (label ++ (s ++ crlf), rest)
read_line fuel s rest h small =
    ap (read_header_line (suc fuel) line_limit []) (sym (line_assoc s rest))
    ∙ read_header_line-one fuel (label ++ (s ++ (13 ∷ []))) rest (line_OneLine s h)
        (omega (arith, length_line s))
    ∙ ap (λ x. ok (x, rest)) (line_assoc s [])

-- the empty line at the end of the headers
read_blank :
    (fuel hb n : ℕ) (rest : Bytes)
    → hb ≤ 100
    → read_headers (suc fuel) (some n) hb (13 ∷ 10 ∷ rest) ≡ ok (some n, rest)
unfolding read_headers trim_left is_space trim_right
read_blank fuel hb n rest h =
    ap (λ r. r >>= after_line (read_headers fuel) (some n) hb)
      (read_header_line-one (suc (suc (length rest))) (13 ∷ []) rest (refl, tt) (omega arith))
    ∙ unless_not _ message_too_large _ (not_above (hb + 2) default_max_header_bytes (omega arith))

on_label :
    (fuel d : ℕ) (s rest : Bytes) (hb n : ℕ)
    → IsDigits (d ∷ s)
    → atoi (d ∷ s) ≡ some (pos n)
    → on_text (read_headers fuel) none hb rest (label ++ (d ∷ s))
      ≡ read_headers fuel (some n) hb rest
unfolding label str
on_label fuel d s rest hb n h e =
    ap (λ r. r >>= λ now. read_headers fuel now hb rest) (header_of_line d s n h e)

read_headers_lem :
    (fuel d : ℕ) (s rest : Bytes) (n : ℕ)
    → IsDigits (d ∷ s)
    → length (d ∷ s) ≤ 20
    → atoi (d ∷ s) ≡ some (pos n)
    → read_headers (suc (suc fuel)) none 0 (label ++ ((d ∷ s) ++ (13 ∷ 10 ∷ 13 ∷ 10 ∷ rest)))
      ≡ ok (some n, rest)
unfolding read_headers
read_headers_lem fuel d s rest n h small e =
    let size = 0 + length (label ++ ((d ∷ s) ++ crlf)) in
    let after = 13 ∷ 10 ∷ rest in
    ap (λ r. r >>= after_line (read_headers (suc fuel)) none 0) (read_line _ (d ∷ s) after h small)
    ∙ unless_not _ message_too_large _ (
        not_above size default_max_header_bytes (
          omega (arith, length-label, length-append label ((d ∷ s) ++ crlf), length-append s crlf)))
    ∙ ap (on_text (read_headers (suc fuel)) none size after) (trim_line d s h)
    ∙ on_label (suc fuel) d s after size n h e
    ∙ read_blank fuel size n rest
        (omega (arith, length-label, length-append label ((d ∷ s) ++ crlf), length-append s crlf))

-- the header of a frame
write_frame_header :
    (n : ℕ) (s rest : Bytes)
    → IsDigits s
    → 1 ≤ length s
    → length s ≤ 20
    → atoi s ≡ some (pos n)
    → (fuel : ℕ)
    → read_headers (suc (suc fuel)) none 0 (label ++ (s ++ (13 ∷ 10 ∷ 13 ∷ 10 ∷ rest)))
      ≡ ok (some n, rest)
write_frame_header n [] rest h le small e fuel = absurd (omega arith)
write_frame_header n (d ∷ s) rest h le small e fuel = read_headers_lem fuel d s rest n h small e

take_all : (xs ys : Bytes) → take (length xs) (xs ++ ys) ≡ xs
take_all [] ys = refl
take_all (x ∷ xs) ys = ap (λ t. x ∷ t) (take_all xs ys)

drop_all : (xs ys : Bytes) → drop (length xs) (xs ++ ys) ≡ ys
drop_all [] ys = refl
drop_all (x ∷ xs) ys = drop_all xs ys

read_body_lem :
    (max : ℕ) (body rest : Bytes)
    → length body ≤ max
    → read_body max (some (length body), body ++ rest) ≡ ok (body, rest)
read_body_lem max body rest h =
    unless_not _ message_too_large _ (not_above (length body) max h)
    ∙ unless_not _ end_of_stream _
        (not_above (length body) (length (body ++ rest)) (omega (arith, length-append body rest)))
    ∙ ap ok (cc (take_all body rest, drop_all body rest))

frame_assoc :
    (digits_of body rest : Bytes)
    → (label ++ (digits_of ++ (crlf ++ (crlf ++ body)))) ++ rest
      ≡ label ++ (digits_of ++ (13 ∷ 10 ∷ 13 ∷ 10 ∷ (body ++ rest)))
frame_assoc s body rest =
    append_assoc label (s ++ (crlf ++ (crlf ++ body))) rest
    ∙ ap (λ x. label ++ x) (append_assoc s (crlf ++ (crlf ++ body)) rest)

read_headers-frame :
    (n : ℕ) (s rest : Bytes)
    → IsDigits s
    → 1 ≤ length s
    → length s ≤ 20
    → atoi s ≡ some (pos n)
    → let stream = label ++ (s ++ (13 ∷ 10 ∷ 13 ∷ 10 ∷ rest)) in
      read_headers (suc (length stream)) none 0 stream ≡ ok (some n, rest)
unfolding label str
read_headers-frame n s rest h le small e = write_frame_header n s rest h le small e _

read_frame-write_frame :
    (max : ℤ) (body rest : Bytes)
    → length body ≤ or_default max default_max_message_bytes
    → length body ≤ max_int
    → read_frame max (write_frame body ++ rest) ≡ ok (body, rest)
unfolding read_frame write_frame label
read_frame-write_frame max body rest h le =
    let n = length body in
    ap (read_frame max) (frame_assoc (show n) body rest)
    ∙ ap (λ r. r >>= read_body (or_default max default_max_message_bytes))
        (read_headers-frame n (show n) (body ++ rest) (digits-IsDigits 20 n) (digits-nonempty 19 n)
          (length-digits 20 n) (atoi-show n le))
    ∙ read_body_lem (or_default max default_max_message_bytes) body rest h

-- The messages are within the limit of the reader, and a length is an `int`.
abbrev pub Fit : ℤ → List Bytes → Type 0
Fit max bodies =
    All (λ b. (length b ≤ or_default max default_max_message_bytes) × (length b ≤ max_int)) bodies

-- The frames that writeFrame wrote one after another, readFrame reads back in order, each body as it
-- was, and leaves what follows them, if the bodies are within the limit of the reader.
pub read_frames-write_frames :
    (max : ℤ) (bodies : List Bytes) (rest : Bytes)
    → Fit max bodies
    → read_frames (length bodies) max (write_frames bodies ++ rest) ≡ ok (bodies, rest)
unfolding read_frames write_frames
read_frames-write_frames max [] rest h = refl
read_frames-write_frames max (body ∷ bodies) rest h =
    ap (read_frames (suc (length bodies)) max)
      (append_assoc (write_frame body) (write_frames bodies) rest)
    ∙ ap
        (λ r. r >>= λ first.
          read_frames (length bodies) max first.1 >>= λ others. ok (first.0 ∷ others.0, others.1))
        (read_frame-write_frame max body (write_frames bodies ++ rest) h.0.0 h.0.1)
    ∙ ap (λ r. r >>= λ others. ok (body ∷ others.0, others.1))
        (read_frames-write_frames max bodies rest h.1)

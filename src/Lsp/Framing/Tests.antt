-- ===== src/Lsp/Framing/Tests.antt =====
-- Two messages, one after another.
use soft_ue_index.Base.{◌≡◌, refl, ◌++◌, [], ◌∷◌, arith}
use soft_ue_index.Base.Text.{str, eqb, to_lower, lower_byte, has_prefix}
use soft_ue_index.Base.Int.{pos}
use soft_ue_index.Base.Strings.{digits, trim_left, trim_right, is_space, cut_at, atoi, value}
use soft_ue_index.Base.Result.{ok, err}
use soft_ue_index.Lsp.Framing.RoundTrip.{read_frames-write_frames}
use soft_ue_index.Lsp.Framing.{
  write_frame, read_frame, read_frames, write_frames, read_headers, read_header_line, read_slice,
  message_too_large,
}

one_frame : read_frame (pos 9) (write_frame (str "{}") ++ str "next") ≡ ok (str "{}", str "next")
unfolding read_frame write_frame read_headers read_header_line read_slice digits trim_left
    trim_right is_space cut_at atoi value str eqb to_lower lower_byte has_prefix
one_frame = refl

too_large : read_frame (pos 1) (write_frame (str "{}")) ≡ err message_too_large
unfolding read_frame write_frame read_headers read_header_line read_slice digits trim_left
    trim_right is_space cut_at atoi value str eqb to_lower lower_byte has_prefix
too_large = refl

read_frames-write_frames_example :
    read_frames 2 (pos 9) (write_frames (str "{}" ∷ [] ∷ []) ++ str "x")
    ≡ ok (str "{}" ∷ [] ∷ [], str "x")
unfolding str
read_frames-write_frames_example =
    read_frames-write_frames (pos 9) (str "{}" ∷ [] ∷ []) (str "x")
      ((omega arith, omega arith), ((omega arith, omega arith), tt))

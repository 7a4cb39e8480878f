-- ===== src/Mcp/Stdio.antt =====
-- internal/mcpserver/stdio.go: the writer that lets only whole, bounded frames out. What has reached
-- the stream behind it is a list, with an entry for each Write to the stream.
pub mod Delivered
use soft_ue_index.Base.{
  ℕ, zero, suc, ◌-◌, ◌≤◌, ◌<◌, ◌≡◌, refl, Option, some, none, List, [], ◌∷◌, ◌++◌, length, arith,
  ltb, ◌==◌, if◌then◌else◌, take, drop, length-take, length-drop, All, All-append, take_whole,
  subst, Bool, not, if_intro, ap, sym, ◌∙◌, append_assoc, append-nil,
}
use soft_ue_index.Base.Text.{Bytes}

pub record Writer : Type 0 where
  pub max_frame : ℕ
  pub pending : Bytes
  pub written : List Bytes

-- How the stream takes a frame, after what has reached it: how many bytes of it, and whether the
-- Write reports an error.
abbrev pub Sink : Type 0
Sink = List Bytes → Bytes → ℕ × Bool

-- bytes.IndexByte(b, '\n')
unfoldable pub newline_at : Bytes → Option ℕ
newline_at [] = none
newline_at (c ∷ s) =
    let rest = newline_at s in
    if c == 10 then some 0 else elim rest [ none ↦ none | some n ↦ some (suc n) ]

-- How a Write ends: all of the data is taken; or a frame is too large and the buffer is dropped; or
-- the stream reports an error, or takes less than a frame.
pub data Written : Type 0 where
  accepted : Written
  frame_too_large : Written
  write_error : Written
  short_write : Written

-- the Write of a frame to the stream, which takes `n` bytes of it
abbrev pub put_frame : Bytes → ℕ × Bool → Writer → (Writer → Written × Writer) → Written × Writer
put_frame frame (n, failed) w next =
    let put = record w { written = w.written ++ (take n frame ∷ []) } in
    let later = next (record put { pending = drop (length frame) w.pending }) in
    if failed
    then (write_error, put)
    else if not (n == length frame)
    then (short_write, put)
    else later

-- The loop of Write, on fuel: a round either ends it or takes a byte from `pending`.
unfoldable pub drain : Sink → ℕ → Writer → Written × Writer
drain sink zero w = (accepted, w)
drain sink (suc fuel) w = elim (newline_at w.pending) [
  | none ↦
      (if ltb w.max_frame (length w.pending)
        then (frame_too_large, record w { pending = [] })
        else (accepted, w))
  | some n ↦
      (let frame = take (suc n) w.pending in
        let rest = put_frame frame (sink w.written frame) w (drain sink fuel) in
        if ltb w.max_frame (suc n) then (frame_too_large, record w { pending = [] }) else rest)
]

unfoldable pub write : Sink → Writer → Bytes → Written × Writer
write sink w input =
    let pending = w.pending ++ input in
    drain sink (suc (length pending)) (record w { pending = pending })

unfoldable pub concat : List Bytes → Bytes
concat [] = []
concat (x ∷ xs) = x ++ concat xs

-- A frame that may leave: it ends at its only newline and fits.
abbrev pub IsFrame : ℕ → Bytes → Type 0
IsFrame max f = (newline_at f ≡ some (length f - 1)) × (1 ≤ length f) × (length f ≤ max)

pub concat-append : (xs ys : List Bytes) → concat (xs ++ ys) ≡ concat xs ++ concat ys
unfolding concat
concat-append [] ys = refl
concat-append (x ∷ xs) ys = rw (concat-append xs ys) (sym (append_assoc x (concat xs) (concat ys)))

pub newline_at-lt : (s : Bytes) (n : ℕ) → newline_at s ≡ some n → n < length s
unfolding newline_at
newline_at-lt [] n h = cc
newline_at-lt (c ∷ s) zero h = omega arith
newline_at-lt (c ∷ s) (suc n) h = ground (arith, newline_at-lt s n)

newline_at-take : (s : Bytes) (n : ℕ) → newline_at s ≡ some n → newline_at (take (suc n) s) ≡ some n
unfolding newline_at
newline_at-take [] n h = cc
newline_at-take (c ∷ s) zero h = ground arith
newline_at-take (c ∷ s) (suc n) h = ground (arith, newline_at-take s n)

pub take-append-drop : (n : ℕ) (s : Bytes) → take n s ++ drop n s ≡ s
take-append-drop zero s = refl
take-append-drop (suc n) [] = refl
take-append-drop (suc n) (c ∷ s) = ap (λ t. c ∷ t) (take-append-drop n s)

pub take-IsFrame :
    (max : ℕ) (s : Bytes) (n : ℕ)
    → newline_at s ≡ some n
    → suc n ≤ max
    → IsFrame max (take (suc n) s)
take-IsFrame max s n h le =
    let size : length (take (suc n) s) ≡ suc n =
      omega (arith, length-take (suc n) s, newline_at-lt s n h) in
    rw size (newline_at-take s n h ∙ ap some (omega arith), omega arith, le)

-- ===== src/Base/Strings.antt =====
-- More of package strings, and the decimal numbers of packages strconv and fmt.
use Prim.Native.Nat.{ℕ, zero, suc, ◌+◌, ◌-◌, ◌*◌, ◌/◌, ◌%◌, ◌≤◌, ◌<◌}
use mathlib.Core.Path.{subst, ◌≡◌, ◌∙◌, ap}
use mathlib.Core.Bool.{Bool, true, ◌&&◌, ◌||◌}
use mathlib.Core.Option.{Option, none, some}
use mathlib.Core.List.{[], ◌∷◌, ◌++◌}
use native.Mathlib.Omega.{arith}
use soft_ue_index.Base.Tests.{leb, ltb, ◌==◌, if◌then◌else◌, if_intro, ltb→lt}
use soft_ue_index.Base.Lists.{All, All-append, length, length-append, drop}
use soft_ue_index.Base.Text.{Bytes, has_prefix}
use soft_ue_index.Base.Int.{ℤ, pos, negsuc}

-- strings.Cut: what precedes and follows the first `sep`
unfoldable pub cut_at : Bytes → Bytes → Option (Bytes × Bytes)
cut_at sep [] = if has_prefix [] sep then some ([], []) else none
cut_at sep (c ∷ s) =
    let rest = cut_at sep s in
    if has_prefix (c ∷ s) sep
    then some ([], drop (length sep) (c ∷ s))
    else elim rest [ none ↦ none | some (before, after) ↦ some (c ∷ before, after) ]

-- white space, in ASCII text
unfoldable pub is_space : ℕ → Bool
is_space c = (c == 32) || (leb 9 c && leb c 13)

unfoldable pub trim_left : Bytes → Bytes
trim_left [] = []
trim_left (c ∷ s) = let rest = trim_left s in if is_space c then rest else c ∷ s

unfoldable pub trim_right : Bytes → Bytes
trim_right [] = []
trim_right (c ∷ s) =
    let rest = trim_right s in
    elim rest [ [] ↦ (if is_space c then [] else c ∷ []) | d ∷ t ↦ c ∷ d ∷ t ]

-- strings.TrimSpace
abbrev pub trim_space : Bytes → Bytes
trim_space s = trim_right (trim_left s)

abbrev pub is_digit : ℕ → Bool
is_digit c = leb b'0' c && leb c b'9'

-- fmt's %d, on fuel: the digits of a number below 10 ^ fuel
unfoldable pub digits : ℕ → ℕ → Bytes
digits zero n = []
digits (suc fuel) n =
    let high = digits fuel (n / 10) in
    if ltb n 10 then (b'0' + n) ∷ [] else high ++ ((b'0' + n % 10) ∷ [])

-- an `int` has at most 19 digits
abbrev pub show : ℕ → Bytes
show n = digits 20 n

unfoldable pub value : ℕ → Bytes → Option ℕ
value acc [] = some acc
value acc (c ∷ s) = if is_digit c then value (acc * 10 + (c - b'0')) s else none

abbrev pub max_int : ℕ
max_int = 9223372036854775807

abbrev pub positive_int : Option ℕ → Option ℤ
positive_int none = none
positive_int (some n) = if leb n max_int then some (pos n) else none

abbrev pub negative_int : Option ℕ → Option ℤ
negative_int none = none
negative_int (some zero) = some (pos zero)
negative_int (some (suc n)) = if leb n max_int then some (negsuc n) else none

abbrev pub value_of : Bytes → Option ℕ
value_of [] = none
value_of (c ∷ s) = value 0 (c ∷ s)

-- strconv.Atoi
unfoldable pub atoi : Bytes → Option ℤ
atoi [] = none
atoi (c ∷ s) =
    if c == b'-'
    then negative_int (value_of s)
    else if c == b'+'
    then positive_int (value_of s)
    else positive_int (value_of (c ∷ s))

-- All bytes of a number are digits.
abbrev pub IsDigits : Bytes → Type 0
IsDigits s = All (λ c. is_digit c ≡ true) s

digit : (n : ℕ) → n < 10 → is_digit (b'0' + n) ≡ true
digit n h = ground (arith, h)

pub digits-IsDigits : (fuel n : ℕ) → IsDigits (digits fuel n)
unfolding digits
digits-IsDigits zero n = tt
digits-IsDigits (suc fuel) n =
    if_intro IsDigits (ltb n 10) _ _ (λ b. (digit n (ltb→lt n 10 b), tt))
      (λ b.
        All-append (λ c. is_digit c ≡ true) (digits fuel (n / 10)) _ (digits-IsDigits fuel (n / 10))
          (digit (n % 10) (omega arith), tt))

pub length-digits : (fuel n : ℕ) → length (digits fuel n) ≤ fuel
unfolding digits
length-digits zero n = omega arith
length-digits (suc fuel) n =
    if_intro (λ s. length s ≤ suc fuel) (ltb n 10) ((b'0' + n) ∷ [])
      (digits fuel (n / 10) ++ ((b'0' + n % 10) ∷ [])) (λ b. omega arith)
      (λ b. omega (
        arith,
        length-append (digits fuel (n / 10)) ((b'0' + n % 10) ∷ []),
        length-digits fuel (n / 10),
      ))

one_digit : (acc d : ℕ) → d < 10 → value acc ((b'0' + d) ∷ []) ≡ some (acc * 10 + d)
unfolding value
one_digit acc d lt = ground (arith, lt)

first_digit : (n : ℕ) → n < 10 → value 0 ((b'0' + n) ∷ []) ≡ some n
first_digit n lt = one_digit 0 n lt ∙ ap some (omega arith)

value-append :
    (s : Bytes) (acc d n : ℕ)
    → value acc s ≡ some n
    → d < 10
    → value acc (s ++ ((b'0' + d) ∷ [])) ≡ some (n * 10 + d)
unfolding value
value-append [] acc d n h lt =
    let same : acc ≡ n = cc in
    subst (λ k. value acc ((b'0' + d) ∷ []) ≡ some (k * 10 + d)) same (one_digit acc d lt)
value-append (c ∷ s) acc d n h lt =
    ground (arith, value-append s (acc * 10 + (c - b'0')) d n, h, lt)

-- the numbers of at most so many digits
abbrev room : ℕ → ℕ
room zero = 1
room (suc fuel) = 10 * room fuel

value-digits : (fuel n : ℕ) → n < room (suc fuel) → value 0 (digits (suc fuel) n) ≡ some n
unfolding value digits
value-digits zero n h =
    if_intro (λ s. value 0 s ≡ some n) (ltb n 10) _ _ (λ b. first_digit n (ltb→lt n 10 b))
      (λ b. absurd (ground arith))
value-digits (suc fuel) n h =
    if_intro (λ s. value 0 s ≡ some n) (ltb n 10) _ _ (λ b. first_digit n (ltb→lt n 10 b))
      (λ b.
        value-append (digits (suc fuel) (n / 10)) 0 (n % 10) (n / 10)
          (value-digits fuel (n / 10) (omega arith)) (omega arith)
        ∙ ap some (omega arith))

value_of-digits : (s : Bytes) (n : ℕ) → value 0 s ≡ some n → 1 ≤ length s → value_of s ≡ some n
value_of-digits [] n h le = absurd (omega arith)
value_of-digits (c ∷ s) n h le = h

-- a text of digits that is a number
atoi-digits :
    (s : Bytes) (n : ℕ)
    → IsDigits s
    → 1 ≤ length s
    → n ≤ max_int
    → value 0 s ≡ some n
    → atoi s ≡ some (pos n)
unfolding atoi
atoi-digits [] n d le small h = absurd (omega arith)
atoi-digits (c ∷ s) n d le small h = ground (arith, d.0, h, small)

pub digits-nonempty : (fuel n : ℕ) → 1 ≤ length (digits (suc fuel) n)
unfolding digits
digits-nonempty fuel n =
    if_intro (λ s. 1 ≤ length s) (ltb n 10) ((b'0' + n) ∷ [])
      (digits fuel (n / 10) ++ ((b'0' + n % 10) ∷ [])) (λ _. omega arith)
      (λ _. omega (arith, length-append (digits fuel (n / 10)) ((b'0' + n % 10) ∷ [])))

-- Atoi reads what %d printed.
pub atoi-show : (n : ℕ) → n ≤ max_int → atoi (show n) ≡ some (pos n)
atoi-show n h =
    atoi-digits (show n) n (digits-IsDigits 20 n) (digits-nonempty 19 n) h
      (value-digits 19 n (omega arith))

-- ===== src/Parser/Lex.antt =====
-- Texts, and what src/src/src/parser.cpp does with them: the trimming of a line, the test for a number,
-- and the reading of numbers and words by `std::stoi` and `std::istringstream`. A text is the list of
-- its characters' codes.
use distributed_algorithms_p.Prelude.{
  ℕ, ◌+◌, ◌-◌, ◌*◌, ◌%◌, ◌^◌, ◌≡◌, ◌↔◌, Bool, true, false, not, ◌&&◌, ◌||◌, List, [], ◌∷◌, Option,
  none, some, arith, Eq, if◌then◌else◌, leb, ltb, ◌==◌, nat_eq, is_empty,
}

abbrev pub Text : Type 0
Text = List ℕ

-- `std::strcmp(s, t) == 0`
abbrev pub text_beq : Text → Text → Bool
text_beq [] [] = true
text_beq (c ∷ s) (d ∷ t) = if c == d then text_beq s t else false
text_beq _ _ = false

pub text_beq_iff : (s t : Text) → (text_beq s t ≡ true) ↔ (s ≡ t)
text_beq_iff [] [] = ground arith
text_beq_iff (c ∷ s) (d ∷ t) = ground (arith, text_beq_iff s t)
text_beq_iff [] (d ∷ t) = ground arith
text_beq_iff (c ∷ s) [] = ground arith

instance abbrev pub text_eq : Eq Text
text_eq = record { equals = text_beq; equals_iff = text_beq_iff }

-- `std::isspace` and `std::isdigit`
abbrev pub is_space : ℕ → Bool
is_space c = c == 32 || (leb 9 c && leb c 13)

abbrev pub is_digit : ℕ → Bool
is_digit c = leb 48 c && leb c 57

-- `LeftTrim`, `RightTrim` and `Trim`
unfoldable pub left_trim : Text → Text
left_trim [] = []
left_trim (c ∷ s) = let rest = left_trim s in if is_space c then rest else c ∷ s

unfoldable pub right_trim : Text → Text
right_trim [] = []
right_trim (c ∷ s) =
    let rest = right_trim s in
    if is_empty rest then (if is_space c then [] else c ∷ []) else c ∷ rest

unfoldable pub trim : Text → Text
unfolding left_trim right_trim
trim s = right_trim (left_trim s)

abbrev pub all_digits : Text → Bool
all_digits [] = true
all_digits (c ∷ s) = if is_digit c then all_digits s else false

-- `IsPositiveNumber`, which holds of "0" too.
unfoldable pub is_positive_number : Text → Bool
is_positive_number s = if is_empty s then false else all_digits s

-- The number that digits denote, after some that denote `n`.
unfoldable pub value : ℕ → Text → ℕ
value n [] = n
value n (c ∷ s) = value (n * 10 + (c - 48)) s

-- INT_MAX
abbrev pub int_max : ℕ
int_max = 0x7fff_ffff

-- `std::stoi` of a text of digits; `none` is its `std::out_of_range`.
unfoldable pub stoi : Text → Option ℕ
unfolding value
stoi s = if leb (value 0 s) int_max then some (value 0 s) else none

-- The characters up to the first of which `stop` holds, and the others.
unfoldable pub span : (ℕ → Bool) → Text → Text × Text
span stop [] = ([], [])
span stop (c ∷ s) =
    let (word, rest) = span stop s in if stop c then ([], c ∷ s) else (c ∷ word, rest)

abbrev pub sign : Text → Bool × Text
sign [] = (false, [])
sign (c ∷ s) = if c == 45 then (true, s) else if c == 43 then (false, s) else (false, c ∷ s)

-- `iss >> n`, for an unsigned type of `bits` bits, with what is left to read: white space is skipped,
-- a minus sign negates modulo 2^bits, and a number that is too large is a failure.
unfoldable pub read_unsigned : ℕ → Text → Option (ℕ × Text)
unfolding left_trim span value
read_unsigned bits s =
    let (negative, t) = sign (left_trim s) in
    let (digits, rest) = span (λ c. not (is_digit c)) t in
    let n = value 0 digits in
    if is_empty digits
    then none
    else if ltb n (2 ^ bits)
    then some ((if negative then (2 ^ bits - n) % 2 ^ bits else n), rest)
    else none

-- `iss >> word`
unfoldable pub read_word : Text → Option (Text × Text)
unfolding left_trim span
read_word s =
    let (word, rest) = span is_space (left_trim s) in
    if is_empty word then none else some (word, rest)

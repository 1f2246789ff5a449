-- ===== src/Logger/Lines.antt =====
-- The text of a line of the log, as `LogSend` and `LogDeliver` of src/src/src/broadcast.cpp write it, and
-- how tools/validate_fifo.py reads it.
use distributed_algorithms_p.Prelude.{
  ℕ, zero, suc, ◌+◌, ◌-◌, ◌*◌, ◌/◌, ◌%◌, ◌≤◌, ◌<◌, ◌≡◌, refl, ◌∙◌, true, false, [], ◌∷◌, ◌++◌,
  Option, none, some, arith, if◌then◌else◌, ◌==◌, nat_eq, ltb, is_empty, Bool-cases, inl, inr,
  max_seq, All, All-append,
}
use distributed_algorithms_p.Parser.Lex.{
  Text, text_eq, is_space, value, span, left_trim, read_word, is_positive_number, all_digits,
}
use distributed_algorithms_p.Logger.{Line, broadcast, deliver}

-- `ss << n`: the decimal digits of a number that has at most `digits` of them.
unfoldable pub decimal : ℕ → ℕ → Text
decimal zero n = []
decimal (suc digits) n =
    let front = decimal digits (n / 10) in
    if ltb n 10 then (48 + n) ∷ [] else front ++ (48 + n % 10) ∷ []

-- An `unsigned int` has at most ten digits.
abbrev pub write_number : ℕ → Text
write_number n = decimal 10 n

unfoldable pub line_text : Line → Text
line_text (broadcast seq) = 98 ∷ 32 ∷ write_number seq
line_text (deliver author seq) = 100 ∷ 32 ∷ write_number author ++ 32 ∷ write_number seq

-- `int(token)`, of a token of digits.
unfoldable pub read_number : Text → Option ℕ
unfolding is_positive_number value
read_number token = if is_positive_number token then some (value 0 token) else none

-- `line.split()` and the two tests of its first token. `none` is a line of another form.
unfoldable pub read_line : Text → Option Line
unfolding read_word read_number
read_line line = elim (read_word line) [
  | none ↦ none
  | some (first, rest) ↦ elim (read_word rest) [
    | none ↦ none
    | some (second, rest2) ↦ elim (read_number second) [
      | none ↦ none
      | some n ↦
          if first == (98 ∷ [])
          then some (broadcast n)
          else if first == (100 ∷ [])
          then elim (read_word rest2) [
            | none ↦ none
            | some (third, rest3) ↦ elim (read_number third) [
              | none ↦ none
              | some m ↦ some (deliver n m)
            ]
          ]
          else none
    ]
  ]
]

-- 10 to the power of `k`.
abbrev limit : ℕ → ℕ
limit zero = 1
limit (suc k) = 10 * limit k

abbrev pub IsDigit : ℕ → Type 0
IsDigit c = (48 ≤ c) × (c ≤ 57)

value-append : (n : ℕ) (s t : Text) → value n (s ++ t) ≡ value (value n s) t
unfolding value
value-append n [] t = refl
value-append n (c ∷ s) t = value-append (n * 10 + (c - 48)) s t

pub decimal-IsDigit : (k n : ℕ) → All IsDigit (decimal k n)
unfolding decimal
decimal-IsDigit zero n = tt
decimal-IsDigit (suc k) n = elim (Bool-cases (ltb n 10)) [
  | inl small ↦ rw (small, decimal) (ground (arith, small), tt)
  | inr large ↦
      rw (large, decimal)
        (All-append IsDigit (decimal k (n / 10)) _ (decimal-IsDigit k (n / 10)) (omega arith, tt))
]

is_empty-append : (s : Text) (c : ℕ) → is_empty (s ++ c ∷ []) ≡ false
is_empty-append [] c = refl
is_empty-append (b ∷ s) c = refl

pub is_empty-decimal : (k n : ℕ) → is_empty (decimal (suc k) n) ≡ false
unfolding decimal
is_empty-decimal k n = elim (Bool-cases (ltb n 10)) [
  | inl small ↦ rw (small, decimal)
  | inr large ↦ rw (large, decimal) (is_empty-append (decimal k (n / 10)) _)
]

value-decimal : (k n : ℕ) → n < limit k → value 0 (decimal k n) ≡ n
unfolding decimal value
value-decimal zero n small = omega arith
value-decimal (suc k) n small = elim (Bool-cases (ltb n 10)) [
  | inl one ↦ rw (one, decimal, value) (omega arith)
  | inr more ↦
      let front = value-decimal k (n / 10) (omega arith) in
      rw (more, decimal) (value-append 0 (decimal k (n / 10)) _ ∙ omega (arith, front))
]

pub value-write_number : (n : ℕ) → n ≤ max_seq → value 0 (write_number n) ≡ n
value-write_number n small = value-decimal 10 n (omega arith)

all_digits-IsDigit : (s : Text) → All IsDigit s → all_digits s ≡ true
all_digits-IsDigit [] d = refl
all_digits-IsDigit (c ∷ s) d = ground (arith, d.0, all_digits-IsDigit s d.1)

-- A token of digits ends at the end of the line or at a space.
span-word :
    (s rest : Text)
    → All IsDigit s
    → (span is_space (s ++ 32 ∷ rest) ≡ (s, 32 ∷ rest)) × (span is_space s ≡ (s, []))
unfolding span
span-word [] rest d = (refl, refl)
span-word (c ∷ s) rest d =
    let (a, b) = span-word s rest d.1 in (ground (arith, d.0, a), ground (arith, d.0, b))

-- White space before a token is skipped.
read_word-space : (s : Text) → read_word (32 ∷ s) ≡ read_word s
unfolding read_word left_trim
read_word-space s = refl

read_word-letter : (c : ℕ) (s : Text) → 97 ≤ c → read_word (c ∷ 32 ∷ s) ≡ some (c ∷ [], 32 ∷ s)
unfolding read_word left_trim span
read_word-letter c s letter = ground arith

read_word-digits :
    (s rest : Text)
    → All IsDigit s
    → is_empty s ≡ false
    → (read_word (s ++ 32 ∷ rest) ≡ some (s, 32 ∷ rest)) × (read_word s ≡ some (s, []))
unfolding read_word left_trim
read_word-digits [] rest d e = cc
read_word-digits (c ∷ s) rest d e =
    let (a, b) = span-word (c ∷ s) rest d in (ground (arith, d.0, a), ground (arith, d.0, b))

abbrev IsNumberOf : Text → ℕ → Type 0
IsNumberOf s n = All IsDigit s × (is_empty s ≡ false) × (read_number s ≡ some n)

write_number-IsNumberOf : (n : ℕ) → n ≤ max_seq → IsNumberOf (write_number n) n
unfolding read_number is_positive_number
write_number-IsNumberOf n small =
    let digits = decimal-IsDigit 10 n in
    let some_digit = is_empty-decimal 9 n in
    (
      digits,
      some_digit,
      ground (
        arith,
        some_digit,
        all_digits-IsDigit (write_number n) digits,
        value-write_number n small,
      ),
    )

-- The tokens of the two kinds of line.
read_line-broadcast :
    (s : Text) (n : ℕ) → IsNumberOf s n → read_line (98 ∷ 32 ∷ s) ≡ some (broadcast n)
unfolding read_line
read_line-broadcast s n (digits, some_digit, e) =
    let (_, last) = read_word-digits s [] digits some_digit in
    ground (arith, e, read_word-letter 98 s (omega arith), read_word-space s, last)

read_line-deliver :
    (s t : Text) (n m : ℕ)
    → IsNumberOf s n
    → IsNumberOf t m
    → read_line (100 ∷ 32 ∷ s ++ 32 ∷ t) ≡ some (deliver n m)
unfolding read_line
read_line-deliver s t n m (ds, ss, es) (dt, st, et) =
    let (middle, _) = read_word-digits s t ds ss in
    let (_, last) = read_word-digits t [] dt st in
    ground (
      arith,
      es,
      et,
      read_word-letter 100 (s ++ 32 ∷ t) (omega arith),
      read_word-space (s ++ 32 ∷ t),
      middle,
      read_word-space t,
      last,
    )

abbrev AreSmall : Line → Type 0
AreSmall (broadcast seq) = seq ≤ max_seq
AreSmall (deliver author seq) = (author ≤ max_seq) × (seq ≤ max_seq)

-- tools/validate_fifo.py reads a line of the log, as it is written for numbers that are `unsigned int`s,
-- back as the broadcast or the delivery that was logged.
pub read_line-line_text : (l : Line) → AreSmall l → read_line (line_text l) ≡ some l
unfolding line_text
read_line-line_text (broadcast seq) small =
    read_line-broadcast _ seq (write_number-IsNumberOf seq small)
read_line-line_text (deliver author seq) (a, s) =
    read_line-deliver _ _ author seq (write_number-IsNumberOf author a)
      (write_number-IsNumberOf seq s)

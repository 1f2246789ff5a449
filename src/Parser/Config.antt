-- ===== src/Parser/Config.antt =====
-- The configuration file: what `ParseConfigFile` of src/src/src/parser.cpp reads from a file whose line has
-- the numbers in decimal.
use distributed_algorithms_p.Prelude.{
  ℕ, ◌≤◌, ◌≡◌, refl, false, not, List, [], ◌∷◌, ◌++◌, Option, some, arith, is_empty, max_seq, All,
}
use distributed_algorithms_p.Logger.Lines.{
  write_number, IsDigit, decimal-IsDigit, is_empty-decimal, value-write_number,
}
use distributed_algorithms_p.Parser.Lex.{
  Text, is_digit, value, span, left_trim, right_trim, trim, read_unsigned,
}
use distributed_algorithms_p.Parser.{
  Lookup, Parser, returns, parse_config_file, kfifo_broadcast, kperfect_links,
}

-- The end of a run of digits is the end of the text or a space.
span-digits :
    (s rest : Text)
    → All IsDigit s
    → (span (λ c. not (is_digit c)) (s ++ 32 ∷ rest) ≡ (s, 32 ∷ rest))
      × (span (λ c. not (is_digit c)) s ≡ (s, []))
unfolding span
span-digits [] rest d = (refl, refl)
span-digits (c ∷ s) rest d =
    let (a, b) = span-digits s rest d.1 in (ground (arith, d.0, a), ground (arith, d.0, b))

read_unsigned-digits :
    (s rest : Text)
    → All IsDigit s
    → is_empty s ≡ false
    → value 0 s ≤ max_seq
    → (read_unsigned 32 (s ++ 32 ∷ rest) ≡ some (value 0 s, 32 ∷ rest))
      × (read_unsigned 32 s ≡ some (value 0 s, []))
unfolding read_unsigned left_trim
read_unsigned-digits [] rest d e small = cc
read_unsigned-digits (c ∷ s) rest d e small =
    let (a, b) = span-digits (c ∷ s) rest d in
    (ground (arith, d.0, a, small), ground (arith, d.0, b, small))

read_unsigned-space : (s : Text) → read_unsigned 32 (32 ∷ s) ≡ read_unsigned 32 s
unfolding read_unsigned left_trim
read_unsigned-space s = refl

-- A line that begins with a digit is not empty.
is_empty-trim :
    (s rest : Text) → All IsDigit s → is_empty s ≡ false → is_empty (trim (s ++ rest)) ≡ false
unfolding trim left_trim right_trim
is_empty-trim [] rest d e = cc
is_empty-trim (c ∷ s) rest d e = ground (arith, d.0)

-- What the numbers of the file are to the parser.
abbrev with_numbers : ℕ → ℕ → Parser → Parser
with_numbers n receiver p = elim p.exec_mode [
  | kfifo_broadcast ↦ record p { n_messages_to_send = n }
  | kperfect_links ↦ record p { n_messages_to_send = n; receiver_id = receiver }
]

module _ (open_file : Text → Option (List Text)) (resolve : Text → Lookup) where
  -- A configuration file whose first line has two numbers below 2^32 in decimal, with a space between
  -- them, is accepted in both modes: the first is the number of messages, and in the mode for
  -- perfect links the second is the receiver's id.
  pub parse_config_file-write_number :
      (p : Parser) (n receiver : ℕ) (lines : List Text)
      → n ≤ max_seq
      → receiver ≤ max_seq
      → open_file p.config_path ≡ some ((write_number n ++ 32 ∷ write_number receiver) ∷ lines)
      → parse_config_file open_file resolve p ≡ returns (with_numbers n receiver p)
  unfolding parse_config_file
  parse_config_file-write_number p n receiver lines small small_too found =
      let value_n = value-write_number n small in
      let value_r = value-write_number receiver small_too in
      let digits_n = decimal-IsDigit 10 n in
      let digits_r = decimal-IsDigit 10 receiver in
      let some_n = is_empty-decimal 9 n in
      let (first, _) =
        read_unsigned-digits (write_number n) (write_number receiver) digits_n some_n
          (omega (arith, value_n)) in
      let (_, second) =
        read_unsigned-digits (write_number receiver) [] digits_r (is_empty-decimal 9 receiver)
          (omega (arith, value_r)) in
      let filled = is_empty-trim (write_number n) (32 ∷ write_number receiver) digits_n some_n in
      ground (
        arith,
        found,
        first,
        second,
        filled,
        value_n,
        value_r,
        read_unsigned-space (write_number receiver),
      )

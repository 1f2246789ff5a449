-- ===== src/Parser/Arguments.antt =====
-- The command line: which ones `ParseInternal` accepts, and what it takes from them.
use distributed_algorithms_p.Prelude.{
  ◌≤◌, ◌≡◌, refl, ◌⊎◌, true, List, Option, none, some, arith, length, if◌then◌else◌, ◌==◌, nat_eq,
  leb, ◌&&◌, Option-cases, inl, inr,
}
use distributed_algorithms_p.Parser.Lex.{
  Text, text_eq, text_beq_iff, is_positive_number, stoi, value, int_max,
}
use distributed_algorithms_p.Parser.{
  Parser, Result, returns, throws, and_then, arg, id_flag, hosts_flag, output_flag, mode_flag,
  pl_word, fifo_word, parse_id, parse_host_path, parse_output_path, parse_config_path, parse_mode,
  parse_paths, parse_internal, usage, invalid_mode, kperfect_links, kfifo_broadcast,
}

parse_id-some :
    (p q : Parser) (argv : List Text)
    → parse_id p argv ≡ some q
    → (arg 1 argv ≡ id_flag)
      × (is_positive_number (arg 2 argv) ≡ true)
      × (value 0 (arg 2 argv) ≤ int_max)
      × (q ≡ record p { id = value 0 (arg 2 argv) })
unfolding parse_id stoi
parse_id-some p q argv e = ground (arith, text_beq_iff (arg 1 argv) id_flag)

parse_host_path-some :
    (p q : Parser) (argv : List Text)
    → parse_host_path p argv ≡ some q
    → (arg 3 argv ≡ hosts_flag) × (q ≡ record p { hosts_path = arg 4 argv })
unfolding parse_host_path
parse_host_path-some p q argv e = ground (arith, text_beq_iff (arg 3 argv) hosts_flag)

parse_output_path-some :
    (p q : Parser) (argv : List Text)
    → parse_output_path p argv ≡ some q
    → (arg 5 argv ≡ output_flag) × (q ≡ record p { output_path = arg 6 argv })
unfolding parse_output_path
parse_output_path-some p q argv e = ground (arith, text_beq_iff (arg 5 argv) output_flag)

parse_config_path-some :
    (p q : Parser) (argv : List Text)
    → p.requires_config ≡ true
    → parse_config_path p argv ≡ some q
    → (8 ≤ length argv) × (q ≡ record p { config_path = arg 7 argv })
unfolding parse_config_path
parse_config_path-some p q argv r e = ground arith

-- `--id ID --hosts HOSTS --output OUTPUT CONFIG`, and anything after it.
pub record IsCommand (argv : List Text) : Type 0 where
  pub long : 8 ≤ length argv
  pub has_id : arg 1 argv ≡ id_flag
  pub digits : is_positive_number (arg 2 argv) ≡ true
  pub bounded : value 0 (arg 2 argv) ≤ int_max
  pub has_hosts : arg 3 argv ≡ hosts_flag
  pub has_output : arg 5 argv ≡ output_flag

-- What such a command says.
abbrev pub from_command : Parser → List Text → Parser
from_command p argv = record p {
  id = value 0 (arg 2 argv);
  hosts_path = arg 4 argv;
  output_path = arg 6 argv;
  config_path = arg 7 argv;
}

and_then-some :
    {A B : Type 0} (o : Option A) (f : A → Option B) (b : B)
    → and_then o f ≡ some b
    → (a : A) × (o ≡ some a) × (f a ≡ some b)
and_then-some none f b e = cc
and_then-some (some a) f b e = (a, refl, e)

parse_paths-some :
    (p q : Parser) (argv : List Text)
    → p.requires_config ≡ true
    → parse_paths p argv ≡ some q
    → IsCommand argv
unfolding parse_paths
parse_paths-some p q argv config e =
    let (r, first, e1) = and_then-some (parse_id p argv) _ q e in
    let (s, second, e2) = and_then-some (parse_host_path r argv) _ q e1 in
    let (t, third, fourth) = and_then-some (parse_output_path s argv) _ q e2 in
    let (id, digits, bounded, at_r) = parse_id-some p r argv first in
    let (hosts, at_s) = parse_host_path-some r s argv second in
    let (output, at_t) = parse_output_path-some s t argv third in
    let kept : t.requires_config ≡ true = cc in
    record {
      long = (parse_config_path-some t q argv kept fourth).0;
      has_id = id;
      digits = digits;
      bounded = bounded;
      has_hosts = hosts;
      has_output = output;
    }

parse_paths-from_command :
    (p : Parser) (argv : List Text)
    → p.requires_config ≡ true
    → IsCommand argv
    → parse_paths p argv ≡ some (from_command p argv)
unfolding parse_paths parse_id stoi parse_host_path parse_output_path parse_config_path
parse_paths-from_command p argv config c = ground (
  arith,
  c,
  text_beq_iff (arg 1 argv) id_flag,
  text_beq_iff (arg 3 argv) hosts_flag,
  text_beq_iff (arg 5 argv) output_flag,
)

-- The mode that the command asks for, if it asks for one.
abbrev pub with_mode : Parser → List Text → Result Parser
with_mode p argv =
    if leb 10 (length argv) && arg 8 argv == mode_flag
    then if arg 9 argv == pl_word
      then returns (record p { exec_mode = kperfect_links })
      else if arg 9 argv == fifo_word
      then returns (record p { exec_mode = kfifo_broadcast })
      else throws invalid_mode
    else returns p

-- With a configuration file required, a command line of at least eight words, program included, that
-- reads `--id ID --hosts HOSTS --output OUTPUT CONFIG`, where ID consists of digits and is at most
-- INT_MAX, sets the id and the three paths, and the mode if `--mode pl` or `--mode fifo` follows;
-- another word after `--mode` is refused. Every other command line is answered with the usage.
pub parse_internal-IsCommand :
    (p : Parser) (argv : List Text)
    → p.requires_config ≡ true
    → (IsCommand argv × (parse_internal p argv ≡ with_mode (from_command p argv) argv))
      ⊎ ((¬ IsCommand argv) × (parse_internal p argv ≡ throws usage))
unfolding parse_internal parse_mode
parse_internal-IsCommand p argv config = elim (Option-cases (parse_paths p argv)) [
  | inr (q, e) ↦
      let c = parse_paths-some p q argv config e in
      inl (c, rw (parse_paths-from_command p argv config c, parse_internal) (ground arith))
  | inl e ↦
      inr (λ c. ground (arith, parse_paths-from_command p argv config c), rw (e, parse_internal))
]

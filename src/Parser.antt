-- ===== src/Parser.antt =====
-- `Parser` of src/src/src/parser.cpp: the command line, the hosts file and the configuration file.
pub mod Lex
pub mod Hosts
pub mod Arguments
pub mod Access
pub mod Parsed
pub mod Address
pub mod Config
use Prim.Native.Nat.{min, max}
use distributed_algorithms_p.Prelude.{
  ℕ, zero, suc, ◌+◌, ◌-◌, ◌*◌, ◌/◌, ◌%◌, ◌≡◌, Bool, true, false, ◌&&◌, ◌||◌, not, List, [], ◌∷◌,
  ◌++◌, Option, none, some, if◌then◌else◌, ltb, leb, ◌==◌, nat_eq, length, max_seq, u32, is_empty,
}
use Lex.{Text, text_eq, trim, is_positive_number, stoi, read_unsigned, read_word}

-- The port is in network byte order.
pub record Host : Type 0 where
  pub ip : ℕ
  pub port : ℕ
  pub id : ℕ

pub data ExecMode : Type 0 where
  kperfect_links : ExecMode
  kfifo_broadcast : ExecMode

pub record Parser : Type 0 where
  pub requires_config : Bool
  pub parsed : Bool
  pub config_path : Text
  pub hosts_path : Text
  pub output_path : Text
  pub hosts : List Host
  pub id : ℕ
  pub receiver_id : ℕ
  pub n_messages_to_send : ℕ
  pub exec_mode : ExecMode

abbrev pub new_parser : Bool → Parser
new_parser requires_config = record {
  requires_config = requires_config;
  parsed = false;
  config_path = [];
  hosts_path = [];
  output_path = [];
  hosts = [];
  id = 0;
  receiver_id = 0;
  n_messages_to_send = 0;
  exec_mode = kfifo_broadcast;
}

-- The exceptions, one for each `throw`, and that of `Help`.
pub data Exception : Type 0 where
  usage : Exception
  invalid_mode : Exception
  no_hosts_file : Exception
  bad_hosts_line : ℕ → Exception
  unresolved : Exception
  too_few_hosts : Exception
  not_compact : Exception
  no_config_file : Exception
  empty_config : Exception
  bad_config : Exception
  outside_hosts : Exception
  not_parsed : Exception
  no_config : Exception

-- `undefined` is the call of `freeaddrinfo` on a pointer that was never set, after which the program may
-- do anything.
pub data Result {ℓ} (A : Type ℓ) : Type ℓ where
  returns : A → Result A
  throws : Exception → Result A
  undefined : Result A

-- What the look-up of a host's address comes to: an address, the exception for a host without an IPv4
-- address, or, when `getaddrinfo` fails, what is not defined.
pub data Lookup : Type 0 where
  looked_up : (addr : ℕ) → Lookup
  no_inet : Lookup
  freed_unset : Lookup

abbrev pub and_then {ℓ κ} : {A : Type ℓ} {B : Type κ} → Option A → (A → Option B) → Option B
and_then none f = none
and_then (some a) f = f a

abbrev pub and_then_try {ℓ κ} : {A : Type ℓ} {B : Type κ} → Result A → (A → Result B) → Result B
and_then_try (throws e) f = throws e
and_then_try undefined f = undefined
and_then_try (returns a) f = f a

-- `argv_[i]`, which is read only where `i` is below `argc_`.
abbrev pub arg : ℕ → List Text → Text
arg i [] = []
arg zero (a ∷ argv) = a
arg (suc i) (a ∷ argv) = arg i argv

-- The words of the command line.
abbrev pub id_flag : Text
id_flag = 45 ∷ 45 ∷ 105 ∷ 100 ∷ []

abbrev pub hosts_flag : Text
hosts_flag = 45 ∷ 45 ∷ 104 ∷ 111 ∷ 115 ∷ 116 ∷ 115 ∷ []

abbrev pub output_flag : Text
output_flag = 45 ∷ 45 ∷ 111 ∷ 117 ∷ 116 ∷ 112 ∷ 117 ∷ 116 ∷ []

abbrev pub mode_flag : Text
mode_flag = 45 ∷ 45 ∷ 109 ∷ 111 ∷ 100 ∷ 101 ∷ []

abbrev pub pl_word : Text
pl_word = 112 ∷ 108 ∷ []

abbrev pub fifo_word : Text
fifo_word = 102 ∷ 105 ∷ 102 ∷ 111 ∷ []

-- `none` is the return of `false`.
unfoldable pub parse_id : Parser → List Text → Option Parser
unfolding stoi is_positive_number
parse_id p argv =
    if ltb (length argv) 3
    then none
    else if arg 1 argv == id_flag && is_positive_number (arg 2 argv)
    then elim (stoi (arg 2 argv)) [ none ↦ none | some n ↦ some (record p { id = n }) ]
    else none

unfoldable pub parse_host_path : Parser → List Text → Option Parser
parse_host_path p argv =
    if ltb (length argv) 5
    then none
    else if arg 3 argv == hosts_flag
    then some (record p { hosts_path = arg 4 argv })
    else none

unfoldable pub parse_output_path : Parser → List Text → Option Parser
parse_output_path p argv =
    if ltb (length argv) 7
    then none
    else if arg 5 argv == output_flag
    then some (record p { output_path = arg 6 argv })
    else none

unfoldable pub parse_config_path : Parser → List Text → Option Parser
parse_config_path p argv =
    if not p.requires_config
    then some p
    else if ltb (length argv) 8
    then none
    else some (record p { config_path = arg 7 argv })

unfoldable pub parse_mode : Parser → List Text → Result Parser
parse_mode p argv =
    if ltb (length argv) 10
    then returns p
    else if arg 8 argv == mode_flag
    then if arg 9 argv == pl_word
      then returns (record p { exec_mode = kperfect_links })
      else if arg 9 argv == fifo_word
      then returns (record p { exec_mode = kfifo_broadcast })
      else throws invalid_mode
    else returns p

-- The four parts of `ParseInternal` that can fail, in order.
unfoldable pub parse_paths : Parser → List Text → Option Parser
unfolding parse_id parse_host_path parse_output_path parse_config_path
parse_paths p argv = and_then (parse_id p argv) λ q.
    and_then (parse_host_path q argv)
      λ r. and_then (parse_output_path r argv) λ s. parse_config_path s argv

-- `ParseInternal`, and `Help` where it returns `false`.
unfoldable pub parse_internal : Parser → List Text → Result Parser
unfolding parse_paths parse_mode
parse_internal p argv = elim (parse_paths p argv) [
  | none ↦ throws usage
  | some q ↦ parse_mode q argv
]

-- `htons`, on a little-endian host
abbrev pub htons : ℕ → ℕ
htons port = port % 256 * 256 + port / 256

-- `iss >> id >> ip >> port`
unfoldable pub read_host : Text → Option (ℕ × Text × ℕ)
unfolding read_unsigned read_word
read_host line = and_then (read_unsigned 32 line) λ (id, s).
    and_then (read_word s)
      λ (ip, t). and_then (read_unsigned 16 t) λ (port, rest). some (id, ip, port)

-- The least and the greatest id, from one on.
abbrev pub min_id : ℕ → List Host → ℕ
min_id m [] = m
min_id m (h ∷ hosts) = min_id (min m h.id) hosts

abbrev pub max_id : ℕ → List Host → ℕ
max_id m [] = m
max_id m (h ∷ hosts) = max_id (max m h.id) hosts

-- The test after `std::minmax_element`.
abbrev pub is_compact : List Host → Bool
is_compact [] = false
is_compact (h ∷ hosts) = min_id h.id hosts == 1 && max_id h.id hosts == length (h ∷ hosts)

-- `std::sort` by id. It leaves open in what order hosts with the same id stand; here it is that of
-- the file.
unfoldable pub insert_host : Host → List Host → List Host
insert_host h [] = h ∷ []
insert_host h (g ∷ hosts) =
    let rest = insert_host h hosts in if leb h.id g.id then h ∷ g ∷ hosts else g ∷ rest

unfoldable pub sort_hosts : List Host → List Host
unfolding insert_host
sort_hosts [] = []
sort_hosts (h ∷ hosts) = insert_host h (sort_hosts hosts)

-- What `ParseHostsFile` does once the lines are read.
unfoldable pub accept_hosts : Parser → List Host → Result Parser
unfolding sort_hosts
accept_hosts p hosts =
    if ltb (length hosts) 2
    then throws too_few_hosts
    else if is_compact hosts
    then returns (record p { hosts = sort_hosts hosts })
    else throws not_compact

-- The files that can be opened, by path, as their lines; and what comes of the look-up of a host, by its
-- dotted form or its name, which `Address.address` makes of `inet_pton`, `inet_addr` and `getaddrinfo`.
module _ (open_file : Text → Option (List Text)) (resolve : Text → Lookup) where
  -- The loop over the lines; `n` of them have been read.
  unfoldable pub read_hosts : ℕ → List Text → Result (List Host)
  unfolding read_host trim
  read_hosts n [] = returns []
  read_hosts n (line ∷ lines) =
      let rest = read_hosts (n + 1) lines in
      if is_empty (trim line) then rest else elim (read_host line) [
        | none ↦ throws (bad_hosts_line (n + 1))
        | some (id, ip, port) ↦ elim (resolve ip) [
          | no_inet ↦ throws unresolved
          | freed_unset ↦ undefined
          | looked_up addr ↦
              and_then_try rest
                λ hosts. returns (record { ip = addr; port = htons port; id = id } ∷ hosts)
        ]
      ]

  unfoldable pub parse_hosts_file : Parser → Result Parser
  unfolding read_hosts accept_hosts
  parse_hosts_file p = elim (open_file p.hosts_path) [
    | none ↦ throws no_hosts_file
    | some lines ↦ and_then_try (read_hosts 0 lines) λ hosts. accept_hosts p (p.hosts ++ hosts)
  ]

  -- The first line, which is empty if the file is.
  abbrev pub first_line : List Text → Text
  first_line [] = []
  first_line (line ∷ lines) = line

  unfoldable pub parse_config_file : Parser → Result Parser
  unfolding read_unsigned trim
  parse_config_file p = elim (open_file p.config_path) [
    | none ↦ throws no_config_file
    | some lines ↦
        if is_empty (trim (first_line lines))
        then throws empty_config
        else elim (read_unsigned 32 (first_line lines)) [
          | none ↦ throws bad_config
          | some (n, rest) ↦ elim p.exec_mode [
            | kfifo_broadcast ↦ returns (record p { n_messages_to_send = n })
            | kperfect_links ↦ elim (read_unsigned 32 rest) [
              | none ↦ throws bad_config
              | some (receiver, end) ↦
                  returns (record p { n_messages_to_send = n; receiver_id = receiver })
            ]
          ]
        ]
  ]

  -- `Parse`
  unfoldable pub parse : Parser → List Text → Result Parser
  unfolding parse_internal parse_hosts_file parse_config_file
  parse p argv = and_then_try (parse_internal p argv) λ q.
      and_then_try (parse_hosts_file (record q { parsed = true }))
        λ r. if r.requires_config then parse_config_file r else returns r

-- `hosts_[i]`
abbrev pub host_at : ℕ → List Host → Option Host
host_at i [] = none
host_at zero (h ∷ hosts) = some h
host_at (suc i) (h ∷ hosts) = host_at i hosts

-- `local_host` and `target_host`, for the id and the receiver's id. For 0 the subtraction wraps around,
-- and the index is outside.
unfoldable pub host_of : ℕ → Parser → Result Host
host_of id p = elim (host_at (u32 (id + max_seq)) p.hosts) [
  | none ↦ throws outside_hosts
  | some h ↦ returns h
]

abbrev pub local_host : Parser → Result Host
local_host p = host_of p.id p

abbrev pub target_host : Parser → Result Host
target_host p = host_of p.receiver_id p

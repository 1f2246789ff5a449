-- ===== src/Tests/Parsing.antt =====
-- Command lines and hosts files.
use distributed_algorithms_p.Prelude.{
  Bool, false, ℕ, ◌≡◌, refl, ◌⊎◌, true, List, [], ◌∷◌, ◌++◌, Option, some, arith, nat_eq,
}
use distributed_algorithms_p.Prelude.Set.{member}
use distributed_algorithms_p.Parser.Lex.{
  Text, left_trim, right_trim, trim, value, span, read_unsigned, read_word, is_positive_number,
  stoi,
}
use distributed_algorithms_p.Parser.{
  Lookup, looked_up, no_inet, Host, Parser, returns, throws, usage, new_parser, id_flag, hosts_flag,
  output_flag, mode_flag, pl_word, parse_id, parse_host_path, parse_output_path, parse_config_path,
  parse_mode, parse_paths, parse_internal, read_host, read_hosts, insert_host, sort_hosts,
  accept_hosts, parse_hosts_file, host_of, kperfect_links, parse_config_file,
}
use distributed_algorithms_p.Parser.Address.{
  AddrInfo, inet, inet6, first_inet, ip_lookup, address, new_host, MakesHost, IsLookedUp,
  new_host-IsLookedUp,
}
use distributed_algorithms_p.Logger.Lines.{write_number}
use distributed_algorithms_p.Parser.Config.{parse_config_file-write_number}
use distributed_algorithms_p.Parser.Hosts.{parse_hosts_file-host_of}
use distributed_algorithms_p.Parser.Arguments.{
  IsCommand, from_command, with_mode, parse_internal-IsCommand,
}

-- "process --id 12 --hosts h --output o c --mode pl"
abbrev command : List Text
command =
    []
    ∷ id_flag
    ∷ (49 ∷ 50 ∷ [])
    ∷ hosts_flag
    ∷ (104 ∷ [])
    ∷ output_flag
    ∷ (111 ∷ [])
    ∷ (99 ∷ [])
    ∷ mode_flag
    ∷ pl_word
    ∷ []

parse_internal-command :
    parse_internal (new_parser true) command
    ≡ returns (record (new_parser true) {
      id = 12;
      hosts_path = 104 ∷ [];
      output_path = 111 ∷ [];
      config_path = 99 ∷ [];
      exec_mode = kperfect_links;
    })
unfolding parse_internal parse_paths parse_id parse_host_path parse_output_path parse_config_path
    parse_mode stoi value is_positive_number
parse_internal-command = refl

parse_internal-IsCommand_example :
    (IsCommand command
      × (parse_internal (new_parser true) command
          ≡ with_mode (from_command (new_parser true) command) command))
    ⊎ ((¬ IsCommand command) × (parse_internal (new_parser true) command ≡ throws usage))
parse_internal-IsCommand_example = parse_internal-IsCommand (new_parser true) command refl

-- The hosts files "2 b 80", "", "1 a 70" and, with an id twice, "1 a 70", "3 b 80", "1 c 90".
abbrev some_files : Text → Option (List Text)
some_files path =
    some ((50 ∷ 32 ∷ 98 ∷ 32 ∷ 56 ∷ 48 ∷ []) ∷ [] ∷ (49 ∷ 32 ∷ 97 ∷ 32 ∷ 55 ∷ 48 ∷ []) ∷ [])

abbrev repeated : Text → Option (List Text)
repeated path = some (
    (49 ∷ 32 ∷ 97 ∷ 32 ∷ 55 ∷ 48 ∷ [])
    ∷ (51 ∷ 32 ∷ 98 ∷ 32 ∷ 56 ∷ 48 ∷ [])
    ∷ (49 ∷ 32 ∷ 99 ∷ 32 ∷ 57 ∷ 48 ∷ [])
    ∷ [])

-- An address by the first letter of the name.
abbrev names : Text → Lookup
names [] = no_inet
names (c ∷ s) = looked_up c

abbrev two_hosts : Parser
two_hosts = record (new_parser true) {
  hosts =
      record { ip = 97; port = 17_920; id = 1 } ∷ record { ip = 98; port = 20_480; id = 2 } ∷ [];
}

parse_hosts_file-two_hosts : parse_hosts_file some_files names (new_parser true) ≡ returns two_hosts
unfolding parse_hosts_file read_hosts read_host read_unsigned read_word trim left_trim right_trim
    span value accept_hosts sort_hosts insert_host
parse_hosts_file-two_hosts = refl

parse_hosts_file-host_of_example : (h : Host) × (host_of 2 two_hosts ≡ returns h) × (h.id ≡ 2)
unfolding member
parse_hosts_file-host_of_example =
    parse_hosts_file-host_of some_files names (new_parser true) two_hosts parse_hosts_file-two_hosts
      (refl, (refl, tt)) (omega arith) 2 (omega arith) (omega arith)

-- An id that stands twice passes the test, and the second host is then not process 2.
abbrev three_hosts : Parser
three_hosts = record (new_parser true) {
  hosts =
      record { ip = 97; port = 17_920; id = 1 }
      ∷ record { ip = 99; port = 23_040; id = 1 }
      ∷ record { ip = 98; port = 20_480; id = 3 }
      ∷ [];
}

parse_hosts_file-repeated :
    (parse_hosts_file repeated names (new_parser true) ≡ returns three_hosts)
    × (host_of 2 three_hosts ≡ returns (record { ip = 99; port = 23_040; id = 1 }))
unfolding parse_hosts_file read_hosts read_host read_unsigned read_word trim left_trim right_trim
    span value accept_hosts sort_hosts insert_host host_of
parse_hosts_file-repeated = (refl, refl)

-- A name with an IPv6 entry before its IPv4 entry.
abbrev no_dots : Text → Bool
no_dots s = false

abbrev no_number : Text → ℕ
no_number s = 0

abbrev two_entries : Text → Option (List AddrInfo)
two_entries s = some (inet6 ∷ inet 16_777_343 ∷ [])

new_host-localhost :
    new_host no_dots no_number two_entries (104 ∷ []) 11_001 1
    ≡ returns (record { ip = 16_777_343; port = 63_786; id = 1 })
unfolding new_host address ip_lookup first_inet
new_host-localhost = refl

new_host-IsLookedUp_example :
    ((no_dots (104 ∷ []) ≡ true)
      × MakesHost
          (no_number (104 ∷ []))
          11_001
          1
          (new_host no_dots no_number two_entries (104 ∷ []) 11_001 1))
    ⊎ ((no_dots (104 ∷ []) ≡ false)
        × IsLookedUp no_dots no_number two_entries
            (104 ∷ [])
            11_001
            1
            (new_host no_dots no_number two_entries (104 ∷ []) 11_001 1))
new_host-IsLookedUp_example =
    new_host-IsLookedUp no_dots no_number two_entries (104 ∷ []) 11_001 1 (omega arith)

-- The configuration file "12 2".
abbrev config_file : Text → Option (List Text)
config_file path = some ((write_number 12 ++ 32 ∷ write_number 2) ∷ [])

abbrev for_links : Parser
for_links = record (new_parser true) { exec_mode = kperfect_links }

parse_config_file-write_number_example :
    parse_config_file config_file names for_links
    ≡ returns (record for_links { n_messages_to_send = 12; receiver_id = 2 })
parse_config_file-write_number_example =
    parse_config_file-write_number config_file names for_links 12 2 [] (omega arith) (omega arith)
      refl

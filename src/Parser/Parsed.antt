-- ===== src/Parser/Parsed.antt =====
-- What `Parse` leaves of the members that it does not read from the files.
use distributed_algorithms_p.Prelude.{
  if◌then◌else◌, ◌≡◌, ◌∙◌, true, List, ◌++◌, Option, Bool-cases, Option-cases, inl, inr, arith, ltb,
  length,
}
use distributed_algorithms_p.Parser.Lex.{Text}
use distributed_algorithms_p.Parser.{
  Lookup, Parser, Host, Result, returns, and_then_try, parse, parse_internal, parse_hosts_file,
  read_hosts, accept_hosts, parse_config_file, is_compact,
}
use distributed_algorithms_p.Parser.Hosts.{and_then_try-returns}

accept_hosts-parsed :
    (p q : Parser) (hosts : List Host) → accept_hosts p hosts ≡ returns q → q.parsed ≡ p.parsed
unfolding accept_hosts
accept_hosts-parsed p q hosts e = elim (Bool-cases (ltb (length hosts) 2)) [
  | inl few ↦ ground arith
  | inr many ↦ elim (Bool-cases (is_compact hosts)) [
    | inr gap ↦ ground arith
    | inl compact ↦ ground arith
  ]
]

module _ (open_file : Text → Option (List Text)) (resolve : Text → Lookup) where
  parse_hosts_file-parsed :
      (p q : Parser) → parse_hosts_file open_file resolve p ≡ returns q → q.parsed ≡ p.parsed
  unfolding parse_hosts_file
  parse_hosts_file-parsed p q e = elim (Option-cases (open_file p.hosts_path)) [
    | inl missing ↦ ground arith
    | inr (lines, found) ↦
        let (hosts, _, accepted) =
          and_then_try-returns (read_hosts open_file resolve 0 lines)
            (λ read. accept_hosts p (p.hosts ++ read)) q (ground (arith, e)) in
        accept_hosts-parsed p q (p.hosts ++ hosts) accepted
  ]

  parse_config_file-parsed :
      (p q : Parser) → parse_config_file open_file resolve p ≡ returns q → q.parsed ≡ p.parsed
  unfolding parse_config_file
  parse_config_file-parsed p q e = elim (Option-cases (open_file p.config_path)) [
    | inl missing ↦ ground arith
    | inr (lines, found) ↦ ground (arith, found)
  ]

  -- The end of `Parse`.
  abbrev read_config : Parser → Result Parser
  read_config r = if r.requires_config then parse_config_file open_file resolve r else returns r

  read_config-parsed : (p q : Parser) → read_config p ≡ returns q → q.parsed ≡ p.parsed
  read_config-parsed p q e = elim (Bool-cases p.requires_config) [
    | inl config ↦ parse_config_file-parsed p q (ground arith)
    | inr plain ↦ ground arith
  ]

  pub parse-parsed :
      (p q : Parser) (argv : List Text)
      → parse open_file resolve p argv ≡ returns q
      → q.parsed ≡ true
  unfolding parse
  parse-parsed p q argv e =
      let (r, _, h) =
        and_then_try-returns (parse_internal p argv)
          (λ x.
            and_then_try (parse_hosts_file open_file resolve (record x { parsed = true }))
              read_config)
          q e in
      let (s, hosts, c) =
        and_then_try-returns (parse_hosts_file open_file resolve (record r { parsed = true }))
          read_config q h in
      read_config-parsed s q c ∙ parse_hosts_file-parsed (record r { parsed = true }) s hosts

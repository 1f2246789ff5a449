-- ===== src/Parser/Access.antt =====
-- What `Parser` of src/src/src/parser.cpp gives out once it has parsed.
use distributed_algorithms_p.Prelude.{ℕ, List, if◌then◌else◌}
use distributed_algorithms_p.Parser.Lex.{Text}
use distributed_algorithms_p.Parser.{
  Parser, Host, Result, returns, throws, not_parsed, no_config, and_then_try,
}

-- `CheckParsed`
unfoldable pub check_parsed : Parser → Result {0} Unit
check_parsed p = if p.parsed then returns tt else throws not_parsed

-- A member, after the check.
abbrev pub checked {ℓ} : {A : Type ℓ} → Parser → A → Result A
unfolding check_parsed
checked p a = and_then_try (check_parsed p) λ _. returns a

abbrev pub hosts_path : Parser → Result Text
hosts_path p = checked p p.hosts_path

abbrev pub output_path : Parser → Result Text
output_path p = checked p p.output_path

abbrev pub config_path : Parser → Result Text
config_path p =
    and_then_try (check_parsed p)
      λ _. if p.requires_config then returns p.config_path else throws no_config

abbrev pub hosts : Parser → Result (List Host)
hosts p = checked p p.hosts

abbrev pub id : Parser → Result ℕ
id p = checked p p.id

abbrev pub n_messages_to_send : Parser → Result ℕ
n_messages_to_send p = checked p p.n_messages_to_send

abbrev pub target_id : Parser → Result ℕ
target_id p = checked p p.receiver_id

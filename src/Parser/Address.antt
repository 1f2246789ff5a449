-- ===== src/Parser/Address.antt =====
-- The address of a host: `Parser::Host` of src/src/src/parser.cpp, with `IpLookup` and `IsValidAddress`.
use distributed_algorithms_p.Prelude.{
  ℕ, ◌+◌, ◌*◌, ◌/◌, ◌%◌, ◌<◌, ◌≡◌, refl, Bool, true, false, List, [], ◌∷◌, ◌++◌, Option, none, some,
  arith, if◌then◌else◌, In, inl, inr, ◌⊎◌, Bool-cases, Option-cases, nat_eq,
}
use distributed_algorithms_p.Parser.Lex.{Text}
use distributed_algorithms_p.Parser.{
  Host, htons, Result, returns, throws, undefined, unresolved, Lookup, looked_up, no_inet,
  freed_unset,
}

-- An entry of the list that `getaddrinfo` finds: an IPv4 address, or one of another family.
pub data AddrInfo : Type 0 where
  inet : (addr : ℕ) → AddrInfo
  inet6 : AddrInfo

-- The loop over the entries; `none` is the exception after it.
unfoldable pub first_inet : List AddrInfo → Option ℕ
first_inet [] = none
first_inet (inet addr ∷ res) = some addr
first_inet (inet6 ∷ res) = first_inet res

-- `inet_pton`, which tells whether a text is a dotted address, `inet_addr`, which reads it, and
-- `getaddrinfo`, where `none` is a failure. The address found is printed by `inet_ntop` and read again
-- by `inet_addr`, which gives it back.
module _ (inet_pton : Text → Bool) (inet_addr : Text → ℕ)
    (getaddrinfo : Text → Option (List AddrInfo)) where
  -- When `getaddrinfo` fails, `freeaddrinfo` is called on the pointer that it was to set, before the
  -- exception is thrown.
  unfoldable pub ip_lookup : Text → Lookup
  unfolding first_inet
  ip_lookup host = elim (getaddrinfo host) [
    | none ↦ freed_unset
    | some res ↦ elim (first_inet res) [ none ↦ no_inet | some addr ↦ looked_up addr ]
  ]

  abbrev pub is_valid_address : Text → Bool
  is_valid_address host = inet_pton host

  -- The address that the constructor of `Host` finds.
  unfoldable pub address : Text → Lookup
  unfolding ip_lookup
  address host = if is_valid_address host then looked_up (inet_addr host) else ip_lookup host

  unfoldable pub new_host : Text → ℕ → ℕ → Result Host
  unfolding address
  new_host host port id = elim (address host) [
    | no_inet ↦ throws unresolved
    | freed_unset ↦ undefined
    | looked_up ip ↦ returns (record { ip = ip; port = htons port; id = id })
  ]

-- `ntohs`, on a little-endian host
abbrev pub ntohs : ℕ → ℕ
ntohs port = port % 256 * 256 + port / 256

unfoldable pub port_readable : Host → ℕ
port_readable h = ntohs h.port

-- The first IPv4 entry of a list.
abbrev pub IsFirstInet : List AddrInfo → ℕ → Type 0
IsFirstInet res a =
    (others : List AddrInfo) × (rest : List AddrInfo) × (res ≡ others ++ inet a ∷ rest)
    × ((b : ℕ) → ¬ (In (inet b) others))

abbrev HasNoInet : List AddrInfo → Type 0
HasNoInet res = (b : ℕ) → ¬ (In (inet b) res)

first_inet-cases :
    (res : List AddrInfo)
    → ((first_inet res ≡ none) × HasNoInet res)
      ⊎ ((a : ℕ) × (first_inet res ≡ some a) × IsFirstInet res a)
unfolding first_inet
first_inet-cases [] = inl (refl, λ b i. absurd i)
first_inet-cases (inet a ∷ res) = inr (a, refl, ([], res, refl, λ b i. absurd i))
first_inet-cases (inet6 ∷ res) = elim (first_inet-cases res) [
  | inl (e, nothing) ↦ inl (e, λ b i. elim i [ inl same ↦ cc | inr later ↦ nothing b later ])
  | inr (a, e, (others, rest, split, apart)) ↦ inr (
    a,
    e,
    (inet6 ∷ others, rest, cc, λ b i. elim i [ inl same ↦ cc | inr later ↦ apart b later ]),
  )
]

-- A host with that address and id, whose port reads as the given one.
abbrev pub MakesHost : ℕ → ℕ → ℕ → Result Host → Type 0
MakesHost ip port id r =
    (h : Host) × (r ≡ returns h) × (h.ip ≡ ip) × (h.id ≡ id) × (port_readable h ≡ port)

module _ (inet_pton : Text → Bool) (inet_addr : Text → ℕ)
    (getaddrinfo : Text → Option (List AddrInfo)) where
  -- What becomes of a name that is no dotted address.
  abbrev pub IsLookedUp : Text → ℕ → ℕ → Result Host → Type 0
  IsLookedUp host port id r =
      ((getaddrinfo host ≡ none) × (r ≡ undefined))
      ⊎ ((res : List AddrInfo) × (getaddrinfo host ≡ some res)
          × ((HasNoInet res × (r ≡ throws unresolved))
              ⊎ ((a : ℕ) × IsFirstInet res a × MakesHost a port id r)))

  -- The constructor of a host, for every name or dotted address, port below 2^16 and id. For a dotted
  -- address it makes a host with that address, and for a name that `getaddrinfo` finds one with the
  -- first IPv4 entry of what is found; the host has the id, and its port reads as the given one. If the
  -- entries have no IPv4 address, it throws; if `getaddrinfo` fails, what it does is not defined.
  pub new_host-IsLookedUp :
      (host : Text) (port id : ℕ)
      → port < 65_536
      → ((inet_pton host ≡ true)
          × MakesHost
              (inet_addr host)
              port
              id
              (new_host inet_pton inet_addr getaddrinfo host port id))
        ⊎ ((inet_pton host ≡ false)
            × IsLookedUp host port id (new_host inet_pton inet_addr getaddrinfo host port id))
  unfolding new_host port_readable address ip_lookup
  new_host-IsLookedUp host port id small =
      let made : ℕ → Host = λ ip. record { ip = ip; port = htons port; id = id } in
      elim (Bool-cases (inet_pton host)) [
        | inl dotted ↦ inl (dotted, (made (inet_addr host), ground arith, refl, refl, omega arith))
        | inr name ↦ inr (
          name,
          elim (Option-cases (getaddrinfo host)) [
            | inl unknown ↦ inl (unknown, ground arith)
            | inr (res, known) ↦ inr (
              res,
              known,
              elim (first_inet-cases res) [
                | inl (e, nothing) ↦ inl (nothing, ground arith)
                | inr (a, e, first) ↦
                    inr (a, first, (made a, ground arith, refl, refl, omega arith))
              ],
            )
          ],
        )
      ]

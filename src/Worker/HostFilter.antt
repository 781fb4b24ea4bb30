-- ===== src/Worker/HostFilter.antt =====
-- wapod/src/tcp_acl.rs: which hosts an app may connect to. A line or host is a list of its characters'
-- numbers. The parsers of the standard library and of `ipnet` are parameters, and so is the membership
-- of an address in a net; an `IpRange` holds the nets that were added.
pub mod Blacklist
use wapo.Prelude.{
  ℕ, ◌==◌, if◌then◌else◌, List, [], ◌∷◌, Option, none, some, Bool, true, false, not, ◌&&◌, ◌||◌,
}

-- Nets and addresses of the two families.
pub record Ip (Net4 Net6 Addr4 Addr6 : Type 0) : Type 0 where
  pub trim : List ℕ → List ℕ
  pub parse_net4 : List ℕ → Option Net4
  pub parse_net6 : List ℕ → Option Net6
  pub parse_ip4 : List ℕ → Option Addr4
  pub parse_ip6 : List ℕ → Option Addr6
  pub host4 : Addr4 → Net4
  pub host6 : Addr6 → Net6
  pub contains4 : Net4 → Addr4 → Bool
  pub contains6 : Net6 → Addr6 → Bool

pub record HostFilter (Net4 Net6 : Type 0) : Type 0 where
  pub ipv4_blacklist : List Net4
  pub ipv6_blacklist : List Net6
  pub domain_blacklist : List (List ℕ)

-- `line.is_empty() || line.starts_with('#')`.
unfoldable pub is_comment : List ℕ → Bool
is_comment [] = true
is_comment (c ∷ cs) = c == 35

-- The comparison of two strings.
unfoldable pub same_name : List ℕ → List ℕ → Bool
same_name [] [] = true
same_name [] (y ∷ ys) = false
same_name (x ∷ xs) [] = false
same_name (x ∷ xs) (y ∷ ys) = x == y && same_name xs ys

-- Some element passes the test.
unfoldable pub any {ℓ} : {A : Type ℓ} → (A → Bool) → List A → Bool
any test [] = false
any test (x ∷ xs) = test x || any test xs

module _ {Net4 Net6 Addr4 Addr6 : Type 0} (ip : Ip Net4 Net6 Addr4 Addr6) where
  abbrev pub Filter : Type 0
  Filter = HostFilter Net4 Net6

  -- `IpNet` parses an IPv4 net first; then `IpAddr` an IPv4 address first.
  unfoldable pub add_entry : List ℕ → Filter → Filter
  add_entry line f = elim (ip.parse_net4 line) [
    | some net ↦ record f { ipv4_blacklist = net ∷ f.ipv4_blacklist }
    | none ↦ elim (ip.parse_net6 line) [
      | some net ↦ record f { ipv6_blacklist = net ∷ f.ipv6_blacklist }
      | none ↦ elim (ip.parse_ip4 line) [
        | some a ↦ record f { ipv4_blacklist = ip.host4 a ∷ f.ipv4_blacklist }
        | none ↦ elim (ip.parse_ip6 line) [
          | some a ↦ record f { ipv6_blacklist = ip.host6 a ∷ f.ipv6_blacklist }
          | none ↦ record f { domain_blacklist = line ∷ f.domain_blacklist }
        ]
      ]
    ]
  ]

  -- One round of the loop of `from_iter`.
  unfoldable pub add_line : List ℕ → Filter → Filter
  unfolding is_comment add_entry
  add_line line f = let line' = ip.trim line in if is_comment line' then f else add_entry line' f

  unfoldable pub add_lines : List (List ℕ) → Filter → Filter
  unfolding add_line
  add_lines [] f = f
  add_lines (line ∷ lines) f = add_lines lines (add_line line f)

  unfoldable pub from_iter : List (List ℕ) → Filter
  unfolding add_lines
  from_iter lines =
      add_lines lines (record { ipv4_blacklist = []; ipv6_blacklist = []; domain_blacklist = [] })

  unfoldable pub is_host_allowed : Filter → List ℕ → Bool
  unfolding any same_name
  is_host_allowed f host =
      if any (λ d. same_name d host) f.domain_blacklist then false else elim (ip.parse_ip4 host) [
        | some a ↦ not (any (λ n. ip.contains4 n a) f.ipv4_blacklist)
        | none ↦ elim (ip.parse_ip6 host) [
          | some a ↦ not (any (λ n. ip.contains6 n a) f.ipv6_blacklist)
          | none ↦ true
        ]
      ]

-- ===== src/Worker/HostFilter/Blacklist.antt =====
-- What a line of the blacklist blocks, in whatever place of the list it stands.
use wapo.Prelude.{
  ℕ, ◌≡◌, refl, subst, arith, ==_iff, List, [], ◌∷◌, ◌++◌, none, some, true, false, Bool-cases,
  Option-cases, inl, inr,
}
use wapo.Worker.HostFilter.{
  Ip, is_comment, same_name, any, Filter, add_entry, add_line, add_lines, from_iter,
  is_host_allowed,
}

same_name_refl : (x : List ℕ) → same_name x x ≡ true
unfolding same_name
same_name_refl [] = refl
same_name_refl (x ∷ xs) = ground (arith, (==_iff x x).1 refl, same_name_refl xs)

module _ {Net4 Net6 Addr4 Addr6 : Type 0} (ip : Ip Net4 Net6 Addr4 Addr6) where
  -- A host that is blocked stays blocked, whatever is added.
  abbrev Grows : Filter ip → Filter ip → Type 0
  Grows f g =
      (host : List ℕ) → is_host_allowed ip f host ≡ false → is_host_allowed ip g host ≡ false

  add_entry-Grows : (line : List ℕ) (f : Filter ip) → Grows f (add_entry ip line f)
  unfolding add_entry is_host_allowed any
  add_entry-Grows line f host = elim (Option-cases (ip.parse_net4 line)) [
    | inr (n, e) ↦ rw (add_entry, e) (λ h. ground arith)
    | inl e ↦ elim (Option-cases (ip.parse_net6 line)) [
      | inr (n, g) ↦ rw (add_entry, e, g) (λ h. ground arith)
      | inl g ↦ elim (Option-cases (ip.parse_ip4 line)) [
        | inr (a, i) ↦ rw (add_entry, e, g, i) (λ h. ground arith)
        | inl i ↦ elim (Option-cases (ip.parse_ip6 line)) [
          | inr (a, j) ↦ rw (add_entry, e, g, i, j) (λ h. ground arith)
          | inl j ↦ rw (add_entry, e, g, i, j) (λ h. ground arith)
        ]
      ]
    ]
  ]

  add_line-Grows : (line : List ℕ) (f : Filter ip) → Grows f (add_line ip line f)
  unfolding add_line
  add_line-Grows line f host h = elim (Bool-cases (is_comment (ip.trim line))) [
    | inl e ↦ rw (add_line, e) h
    | inr e ↦ rw (add_line, e) (add_entry-Grows (ip.trim line) f host h)
  ]

  add_lines-Grows : (lines : List (List ℕ)) (f : Filter ip) → Grows f (add_lines ip lines f)
  unfolding add_lines
  add_lines-Grows [] f host h = h
  add_lines-Grows (line ∷ lines) f host h =
      add_lines-Grows lines (add_line ip line f) host (add_line-Grows line f host h)

  -- The trimmed line names the host: by a net or an address that contains the host's address, or else by
  -- its name.
  pub data Blocks (line host : List ℕ) : Type 0 where
    net4 :
        (n : Net4) (a : Addr4)
        → ip.parse_net4 line ≡ some n
        → ip.parse_ip4 host ≡ some a
        → ip.contains4 n a ≡ true
        → Blocks line host
    net6 :
        (n : Net6) (a : Addr6)
        → ip.parse_net4 line ≡ none
        → ip.parse_net6 line ≡ some n
        → ip.parse_ip4 host ≡ none
        → ip.parse_ip6 host ≡ some a
        → ip.contains6 n a ≡ true
        → Blocks line host
    addr4 :
        (b a : Addr4)
        → ip.parse_net4 line ≡ none
        → ip.parse_net6 line ≡ none
        → ip.parse_ip4 line ≡ some b
        → ip.parse_ip4 host ≡ some a
        → ip.contains4 (ip.host4 b) a ≡ true
        → Blocks line host
    addr6 :
        (b a : Addr6)
        → ip.parse_net4 line ≡ none
        → ip.parse_net6 line ≡ none
        → ip.parse_ip4 line ≡ none
        → ip.parse_ip6 line ≡ some b
        → ip.parse_ip4 host ≡ none
        → ip.parse_ip6 host ≡ some a
        → ip.contains6 (ip.host6 b) a ≡ true
        → Blocks line host
    name :
        ip.parse_net4 line ≡ none
        → ip.parse_net6 line ≡ none
        → ip.parse_ip4 line ≡ none
        → ip.parse_ip6 line ≡ none
        → line ≡ host
        → Blocks line host

  blocked4 :
      (n : Net4) (a : Addr4) (host : List ℕ) (f : Filter ip)
      → ip.parse_ip4 host ≡ some a
      → ip.contains4 n a ≡ true
      → is_host_allowed ip (record f { ipv4_blacklist = n ∷ f.ipv4_blacklist }) host ≡ false
  unfolding is_host_allowed any
  blocked4 n a host f e c = ground (arith, e, c)

  blocked6 :
      (n : Net6) (a : Addr6) (host : List ℕ) (f : Filter ip)
      → ip.parse_ip4 host ≡ none
      → ip.parse_ip6 host ≡ some a
      → ip.contains6 n a ≡ true
      → is_host_allowed ip (record f { ipv6_blacklist = n ∷ f.ipv6_blacklist }) host ≡ false
  unfolding is_host_allowed any
  blocked6 n a host f d e c = ground (arith, d, e, c)

  blocked_name :
      (host : List ℕ) (f : Filter ip)
      → is_host_allowed ip (record f { domain_blacklist = host ∷ f.domain_blacklist }) host ≡ false
  unfolding is_host_allowed any
  blocked_name host f = ground (arith, same_name_refl host)

  add_entry-Blocks :
      (line host : List ℕ) (f : Filter ip)
      → Blocks line host
      → is_host_allowed ip (add_entry ip line f) host ≡ false
  unfolding add_entry
  add_entry-Blocks line host f (net4 n a p q c) = rw (add_entry, p) (blocked4 n a host f q c)
  add_entry-Blocks line host f (net6 n a p q d e c) =
      rw (add_entry, p, q) (blocked6 n a host f d e c)
  add_entry-Blocks line host f (addr4 b a p q r e c) =
      rw (add_entry, p, q, r) (blocked4 (ip.host4 b) a host f e c)
  add_entry-Blocks line host f (addr6 b a p q r s d e c) =
      rw (add_entry, p, q, r, s) (blocked6 (ip.host6 b) a host f d e c)
  add_entry-Blocks line host f (name p q r s same) =
      subst (λ h. is_host_allowed ip (add_entry ip line f) h ≡ false) same
        (rw (add_entry, p, q, r, s) (blocked_name line f))

  added :
      (line host : List ℕ) (f : Filter ip)
      → is_comment (ip.trim line) ≡ false
      → Blocks (ip.trim line) host
      → is_host_allowed ip (add_line ip line f) host ≡ false
  unfolding add_line
  added line host f plain b = rw (add_line, plain) (add_entry-Blocks (ip.trim line) host f b)

  added_among :
      (before after : List (List ℕ)) (line host : List ℕ) (f : Filter ip)
      → is_comment (ip.trim line) ≡ false
      → Blocks (ip.trim line) host
      → is_host_allowed ip (add_lines ip (before ++ line ∷ after) f) host ≡ false
  unfolding add_lines
  added_among [] after line host f plain b =
      add_lines-Grows after (add_line ip line f) host (added line host f plain b)
  added_among (l ∷ ls) after line host f plain b =
      added_among ls after line host (add_line ip l f) plain b

  -- Wherever in the configuration a line stands that is no comment and names a host, the filter does not
  -- allow connections to that host.
  pub is_host_allowed-from_iter :
      (before after : List (List ℕ)) (line host : List ℕ)
      → is_comment (ip.trim line) ≡ false
      → Blocks (ip.trim line) host
      → is_host_allowed ip (from_iter ip (before ++ line ∷ after)) host ≡ false
  unfolding from_iter
  is_host_allowed-from_iter before after line host plain b =
      added_among before after line host _ plain b

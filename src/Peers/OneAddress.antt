-- ===== src/Peers/OneAddress.antt =====
-- A configuration for which `reckon_participant_attributes_` returns.
use dds_pipe.Base.{
  ℕ, suc, ◌≡◌, ◌⊎◌, refl, sym, subst, ap, ◌∙◌, Bool, true, false, not, List, [], ◌∷◌, ◌++◌, some,
  if◌then◌else◌, ◌&&◌, arith, inl, inr, Bool-cases, Option-cases,
}
use dds_pipe.Address.{Address, Locators, is_udp}
use dds_pipe.Peers.Participant.{
  listen, listen_valid, start, is_valid, reckon_participant_attributes, configuration_is_valid,
  no_addresses, connect, connect_tcp, finish,
}
use dds_pipe.Peers.Transports.{
  add_listening_locator, note_udp, new_descriptor, add_transport, port_added, TcpDescriptor,
  Configuration, State, Outcome, returns, Transport, tcp4, tcp6, find_descriptor, listen_tcp4,
  secure, is_ipv4, ◌>>=◌, no_settings,
}
use dds_pipe.Peers.Tls.{
  TlsConfiguration, TlsSettings, is_active, enable_tls, client_compatible, server_compatible,
}
use dds_pipe.Rpc.Text.{Text}
use dds_pipe.Topics.{text_eq}
use dds_pipe.Topics.Order.{text_eq_self}

-- A listening address that is not over TCP, or is over TCP of version 4 at one IP
abbrev pub IsAt : Text → Address → Type 0
IsAt ip a = (is_udp a.transport_protocol ≡ true) ⊎ ((is_ipv4 a ≡ true) × (a.ip ≡ ip))

abbrev pub AreAt : Text → List Address → Type 0
AreAt ip [] = Unit
AreAt ip (a ∷ rest) = IsAt ip a × AreAt ip rest

-- At most one transport, with the IP
abbrev OneAt : Text → List Transport → Type 0
OneAt ip [] = Unit
OneAt ip (tcp4 d ∷ []) = d.wan_address ≡ ip
OneAt ip _ = ⊥

record IsFine (ip : Text) (s : State) : Type 0 where
  transports : OneAt ip s.user_transports
  no_tcp4 : s.has_connection_tcp_ipv4 ≡ false
  no_tcp6 : s.has_connection_tcp_ipv6 ≡ false

abbrev Ends : Text → Outcome State → Type 0
Ends ip o = (t : State) × (o ≡ returns t) × IsFine ip t

module _ (x : Locators) (fuel : ℕ) (c : TlsConfiguration) (ip : Text) (z : TlsSettings)
    (e : secure c false ≡ returns z) (same_ip : x.printed_wan ip ≡ ip) where
  listen_tcp4-first :
      (a : Address) (s : State)
      → s.user_transports ≡ []
      → listen_tcp4 x.printed_wan (suc fuel) c a s
        ≡ returns (
            add_transport
              (tcp4 (new_descriptor (a.port ∷ []) (x.printed_wan a.ip) z))
              (record s { has_listening_tcp_ipv4 = true }))
  unfolding listen_tcp4 find_descriptor
  listen_tcp4-first a s u = simp (u, e, find_descriptor) refl

  listen_tcp4-again :
      (a : Address) (s : State) (d : TcpDescriptor)
      → s.user_transports ≡ tcp4 d ∷ []
      → text_eq a.ip d.wan_address ≡ true
      → listen_tcp4 x.printed_wan (suc fuel) c a s
        ≡ returns (
            add_transport
              (port_added a.port (tcp4 d))
              (record s { has_listening_tcp_ipv4 = true; user_transports = [] }))
  unfolding listen_tcp4 find_descriptor
  listen_tcp4-again a s d u h = simp (u, h, find_descriptor) refl

  listen_tcp4-Ends :
      (a : Address) (s : State)
      → a.ip ≡ ip
      → IsFine ip s
      → Ends ip (listen_tcp4 x.printed_wan (suc fuel) c a s)
  listen_tcp4-Ends a s same f = by_transports s.user_transports refl f.transports
    where
      by_transports :
          (ts : List Transport)
          → s.user_transports ≡ ts
          → OneAt ip ts
          → Ends ip (listen_tcp4 x.printed_wan (suc fuel) c a s)
      by_transports [] u one = (
        _,
        listen_tcp4-first a s u,
        record {
          transports =
              subst
                (λ ts.
                  OneAt ip (ts ++ tcp4 (new_descriptor (a.port ∷ []) (x.printed_wan a.ip) z) ∷ []))
                (sym u) (ap x.printed_wan same ∙ same_ip);
          no_tcp4 = f.no_tcp4;
          no_tcp6 = f.no_tcp6;
        },
      )
      by_transports (tcp4 d ∷ []) u one = (
        _,
        listen_tcp4-again a s d u (rw (same, one) (text_eq_self ip)),
        record { transports = one; no_tcp4 = f.no_tcp4; no_tcp6 = f.no_tcp6 },
      )
      by_transports ts u one = absurd one

  listen_valid-tcp4 :
      (a : Address) (s t : State)
      → is_udp a.transport_protocol ≡ false
      → is_ipv4 a ≡ true
      → listen_tcp4 x.printed_wan (suc fuel) c a (record s { has_listening_addresses = true })
        ≡ returns t
      → listen_valid x (suc fuel) c a s ≡ returns (add_listening_locator a t)
  unfolding listen_valid
  listen_valid-tcp4 a s t u v h = ground (arith, u, v, h)

  listen_valid-udp :
      (a : Address) (s : State)
      → is_udp a.transport_protocol ≡ true
      → listen_valid x (suc fuel) c a s
        ≡ returns
            (add_listening_locator a (note_udp a (record s { has_listening_addresses = true })))
  unfolding listen_valid
  listen_valid-udp a s u = ground (arith, u)

  listen_valid-Ends_udp :
      (a : Address) (s : State)
      → is_udp a.transport_protocol ≡ true
      → IsFine ip s
      → Ends ip (listen_valid x (suc fuel) c a s)
  listen_valid-Ends_udp a s u f = (
    _,
    listen_valid-udp a s u,
    record { transports = f.transports; no_tcp4 = f.no_tcp4; no_tcp6 = f.no_tcp6 },
  )

  listen_valid-Ends :
      (a : Address) (s : State)
      → IsAt ip a
      → IsFine ip s
      → Ends ip (listen_valid x (suc fuel) c a s)
  listen_valid-Ends a s (inl u) f = listen_valid-Ends_udp a s u f
  listen_valid-Ends a s (inr (v, same)) f = elim (Bool-cases (is_udp a.transport_protocol)) [
    | inl u ↦ listen_valid-Ends_udp a s u f
    | inr u ↦
        let s' : State = record s { has_listening_addresses = true } in
        let (t, h, g) =
          listen_tcp4-Ends a s' same
            (record { transports = f.transports; no_tcp4 = f.no_tcp4; no_tcp6 = f.no_tcp6 }) in
        (
          _,
          listen_valid-tcp4 a s t u v h,
          record { transports = g.transports; no_tcp4 = g.no_tcp4; no_tcp6 = g.no_tcp6 },
        )
  ]

  listen-Ends :
      (peers : List Address) (s : State)
      → AreAt ip peers
      → IsFine ip s
      → Ends ip (listen x (suc fuel) c peers s)
  unfolding listen
  listen-Ends [] s at f = (s, refl, f)
  listen-Ends (a ∷ rest) s at f = elim (Bool-cases (is_valid x a)) [
    | inl v ↦
        let (t, h, g) = listen_valid-Ends a s at.0 f in
        let (u, k, r) = listen-Ends rest t at.1 g in (u, ground (arith, v, h, k), r)
    | inr v ↦ let (u, k, r) = listen-Ends rest s at.1 f in (u, ground (arith, v, k), r)
  ]

enable_tls-some :
    (c : TlsConfiguration) (as_client : Bool)
    → (if as_client then client_compatible c else server_compatible c) ≡ true
    → (z : TlsSettings) × (enable_tls c as_client no_settings ≡ some z)
unfolding enable_tls
enable_tls-some c as_client h = elim (Option-cases (enable_tls c as_client no_settings)) [
  | inl gone ↦ ground (arith, gone, h)
  | inr there ↦ there
]

secure-returns :
    (c : TlsConfiguration) (as_client : Bool)
    → (is_active c && not (if as_client then client_compatible c else server_compatible c)) ≡ false
    → (z : TlsSettings) × (secure c as_client ≡ returns z)
unfolding secure
secure-returns c as_client h = elim (Bool-cases (is_active c)) [
  | inl a ↦
      let (z, e) = enable_tls-some c as_client (ground (arith, a, h)) in (z, ground (arith, a, e))
  | inr a ↦ (no_settings, ground (arith, a))
]

-- A TCP transport is not wanted, or may be made for a client.
abbrev MayConnect : TlsConfiguration → Bool → Type 0
MayConnect c wanted = (wanted ≡ false) ⊎ ((is_active c && not (client_compatible c)) ≡ false)

connect_tcp-returns :
    (c : TlsConfiguration) (wanted : Bool) (transport : TcpDescriptor → Transport) (s : State)
    → MayConnect c wanted
    → (t : State) × (connect_tcp c wanted transport s ≡ returns t)
unfolding connect_tcp
connect_tcp-returns c false transport s h = (s, refl)
connect_tcp-returns c true transport s (inl h) = cc
connect_tcp-returns c true transport s (inr h) =
    let (z, e) = secure-returns c true h in
    (_, ap (λ o. o >>= λ y. returns (add_transport (transport (new_descriptor [] [] y)) s)) e)

listen-first :
    (fuel : ℕ) (x : Locators) (c : TlsConfiguration) (ip : Text) (peers : List Address)
    → (is_active c && not (no_addresses peers) && not (server_compatible c)) ≡ false
    → AreAt ip peers
    → x.printed_wan ip ≡ ip
    → Ends ip (listen x (suc fuel) c peers start)
unfolding listen
listen-first fuel x c ip [] v at same =
    (start, refl, record { transports = tt; no_tcp4 = refl; no_tcp6 = refl })
listen-first fuel x c ip (a ∷ rest) v at same =
    let (z, e) = secure-returns c false (ground (arith, v)) in
    listen-Ends x fuel c ip z e same (a ∷ rest) start at
      (record { transports = tt; no_tcp4 = refl; no_tcp6 = refl })

may_connect :
    (x : Locators) (c : TlsConfiguration) (connection : List Address) (s : State)
    → (is_active c && not (no_addresses connection) && not (client_compatible c)) ≡ false
    → s.has_connection_tcp_ipv4 ≡ false
    → s.has_connection_tcp_ipv6 ≡ false
    → (b : Bool)
    → MayConnect c ((connect x connection s).has_connection_tcp_ipv4 && b)
      × MayConnect c ((connect x connection s).has_connection_tcp_ipv6 && b)
unfolding connect
may_connect x c [] s v n m b = (inl (ground (arith, n)), inl (ground (arith, m)))
may_connect x c (a ∷ rest) s v n m b = (inr (ground (arith, v)), inr (ground (arith, v)))

abbrev after_tcp4 : TlsConfiguration → State → State → Outcome State
after_tcp4 c s t =
    connect_tcp c (s.has_connection_tcp_ipv6 && not s.has_listening_tcp_ipv6) tcp6 t >>= λ u.
    returns (finish u)

abbrev after_listening : Locators → Configuration → State → Outcome State
after_listening x configuration listened =
    let c = configuration.tls_configuration in
    let s = connect x configuration.connection_addresses listened in
    connect_tcp c (s.has_connection_tcp_ipv4 && not s.has_listening_tcp_ipv4) tcp4 s
    >>= after_tcp4 c s

-- A configuration that is valid, with one IP at most among its listening addresses over TCP, an IP that a
-- descriptor gives back as it was set, and with no such address of version 6: the method returns,
-- and throws nothing. Fuel for one round of the search is enough.
pub one_ip-returns :
    (fuel : ℕ) (x : Locators) (configuration : Configuration) (parent_is_valid : Bool) (ip : Text)
    → configuration_is_valid parent_is_valid x configuration ≡ true
    → AreAt ip configuration.listening_addresses
    → x.printed_wan ip ≡ ip
    → (s : State) × (reckon_participant_attributes (suc fuel) x configuration ≡ returns s)
unfolding reckon_participant_attributes configuration_is_valid
one_ip-returns fuel x configuration parent_is_valid ip valid at same =
    let c = configuration.tls_configuration in
    let (listened, l, f) =
      listen-first fuel x c ip configuration.listening_addresses (ground (arith, valid)) at same in
    let s = connect x configuration.connection_addresses listened in
    let may =
      may_connect x c configuration.connection_addresses listened (ground (arith, valid)) f.no_tcp4
        f.no_tcp6 in
    let (t, h) =
      connect_tcp-returns c (s.has_connection_tcp_ipv4 && not s.has_listening_tcp_ipv4) tcp4 s
        (may (not s.has_listening_tcp_ipv4)).0 in
    let (u, k) =
      connect_tcp-returns c (s.has_connection_tcp_ipv6 && not s.has_listening_tcp_ipv6) tcp6 t
        (may (not s.has_listening_tcp_ipv6)).1 in
    (
      finish u,
      ap (λ o. o >>= after_listening x configuration) l
          ∙ ap (λ o. o >>= after_tcp4 c s) h
          ∙ ap (λ o. o >>= λ v. returns (finish v)) k,
    )

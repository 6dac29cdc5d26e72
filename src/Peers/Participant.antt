-- ===== src/Peers/Participant.antt =====
-- InitialPeersParticipant: the loops over the addresses, the transports and locators that follow
-- them, and the validity of the configuration
-- (ddspipe_participants/src/cpp/configuration/InitialPeersParticipantConfiguration.cpp).
use dds_pipe.Base.{ℕ, Bool, true, false, not, List, [], ◌∷◌, ◌++◌, if◌then◌else◌, ◌&&◌, any}
use dds_pipe.Address.{
  Address, Locators, LocatorKind, udp_v4, udp_v6, get_locator_kind, is_udp, IpVersion, v4, v6,
}
use dds_pipe.Address as Addresses
use dds_pipe.Peers.Tls.{TlsConfiguration, is_active, client_compatible, server_compatible}
use dds_pipe.Peers.Transports.{
  Configuration, Locator, Outcome, State, TcpDescriptor, Transport, add_listening_locator,
  add_transport, connection_locator, is_ipv4, listen_tcp4, listen_tcp6, new_descriptor, note_udp,
  returns, secure, tcp4, tcp6, udp4, udp6, ◌>>=◌,
}

module _ (x : Locators) where
  abbrev pub is_valid : Address → Bool
  is_valid = Addresses.is_valid x

  -- A valid address of the first loop
  unfoldable pub listen_valid : ℕ → TlsConfiguration → Address → State → Outcome State
  unfolding listen_tcp4 listen_tcp6
  listen_valid fuel c a s0 =
      let s : State = record s0 { has_listening_addresses = true } in
      do
        t ←
            if not (is_udp a.transport_protocol)
            then (if is_ipv4 a then listen_tcp4 x.printed_wan fuel c a s else listen_tcp6 c a s)
            else returns (note_udp a s)
        returns (add_listening_locator a t)

  -- The loop over the listening addresses
  unfoldable pub listen : ℕ → TlsConfiguration → List Address → State → Outcome State
  unfolding listen_valid
  listen fuel c [] s = returns s
  listen fuel c (a ∷ rest) s =
      (if is_valid a then listen_valid fuel c a s else returns s) >>= listen fuel c rest

  abbrev pub note_connection : Address → State → State
  note_connection a s =
      if not (is_udp a.transport_protocol)
      then record s {
        has_connection_tcp_ipv4 = is_ipv4 a;
        has_connection_tcp_ipv6 = not (is_ipv4 a);
      }
      else note_udp a (record s {
        has_connection_udp_ipv4 = is_ipv4 a;
        has_connection_udp_ipv6 = not (is_ipv4 a);
      })

  -- The loop over the connection addresses
  unfoldable pub connect : List Address → State → State
  connect [] s = s
  connect (a ∷ rest) s =
      let noted = note_connection a s in
      let next : State = record noted {
        initial_peers = noted.initial_peers ++ connection_locator a ∷ [];
      } in
      connect rest (if is_valid a then next else s)

abbrev pub start : State
start = record {
  user_transports = [];
  metatraffic_unicast_locators = [];
  default_unicast_locators = [];
  initial_peers = [];
  has_listening_addresses = false;
  has_listening_tcp_ipv4 = false;
  has_listening_tcp_ipv6 = false;
  has_connection_tcp_ipv4 = false;
  has_connection_tcp_ipv6 = false;
  has_connection_udp_ipv4 = false;
  has_connection_udp_ipv6 = false;
  has_udp_ipv4 = false;
  has_udp_ipv6 = false;
}

-- A TCP transport for connections alone, if it is wanted
unfoldable pub connect_tcp :
    TlsConfiguration → Bool → (TcpDescriptor → Transport) → State → Outcome State
unfolding secure
connect_tcp c wanted transport s =
    if wanted
    then (secure c true >>= λ settings.
        returns (add_transport (transport (new_descriptor [] [] settings)) s))
    else returns s

-- A locator without an address
abbrev pub empty_locator : LocatorKind → Locator
empty_locator kind = record { kind = kind; ip = []; physical_port = 0 }

abbrev pub add_empty_locator : Bool → LocatorKind → State → State
add_empty_locator wanted kind s =
    if wanted
    then record s {
      metatraffic_unicast_locators = s.metatraffic_unicast_locators ++ empty_locator kind ∷ [];
    }
    else s

-- What follows the two TCP transports
unfoldable pub finish : State → State
finish s =
    let t = if s.has_udp_ipv4 then add_transport udp4 s else s in
    let u = if s.has_udp_ipv6 then add_transport udp6 t else t in
    if not s.has_listening_addresses
    then add_empty_locator s.has_connection_udp_ipv6 udp_v6
        (add_empty_locator s.has_connection_udp_ipv4 udp_v4 u)
    else u

-- reckon_participant_attributes_
unfoldable pub reckon_participant_attributes : ℕ → Locators → Configuration → Outcome State
unfolding listen connect connect_tcp finish
reckon_participant_attributes fuel x configuration = do
  let c = configuration.tls_configuration
  listened ← listen x fuel c configuration.listening_addresses start
  let s = connect x configuration.connection_addresses listened
  t ← connect_tcp c (s.has_connection_tcp_ipv4 && not s.has_listening_tcp_ipv4) tcp4 s
  u ← connect_tcp c (s.has_connection_tcp_ipv6 && not s.has_listening_tcp_ipv6) tcp6 t
  returns (finish u)

abbrev pub no_addresses : List Address → Bool
no_addresses [] = true
no_addresses (a ∷ rest) = false

-- InitialPeersParticipantConfiguration::is_valid, after that of its parent class
unfoldable pub configuration_is_valid : Bool → Locators → Configuration → Bool
unfolding is_active
configuration_is_valid parent_is_valid x configuration =
    let c = configuration.tls_configuration in
    let listening = configuration.listening_addresses in
    let connection = configuration.connection_addresses in
    if not parent_is_valid
    then false
    else if any (λ a. not (is_valid x a)) listening
    then false
    else if any (λ a. not (is_valid x a)) connection
    then false
    else if no_addresses listening && no_addresses connection
    then false
    else if is_active c && not (no_addresses listening) && not (server_compatible c)
    then false
    else not (is_active c && not (no_addresses connection) && not (client_compatible c))

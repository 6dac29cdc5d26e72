-- ===== src/Peers/Transports.antt =====
-- InitialPeersParticipant (ddspipe_participants/src/cpp/participant/rtps/InitialPeersParticipant.cpp):
-- one listening or connection address, its transport and its locator.
use dds_pipe.Base.{
  ℕ, zero, suc, Bool, true, false, not, List, [], ◌∷◌, ◌++◌, Option, none, some, if◌then◌else◌,
}
use dds_pipe.Address.{Address, LocatorKind, get_locator_kind, is_udp, v4, v6}
use dds_pipe.Peers.Tls.{TlsConfiguration, TlsSettings, is_active, enable_tls}
use dds_pipe.Rpc.Text.{Text}
use dds_pipe.Topics.{text_eq}

-- A descriptor of a TCP transport; the whitelist of interfaces is the same in all.
pub record TcpDescriptor : Type 0 where
  pub ports : List ℕ
  -- As `get_WAN_address` gives it
  pub wan_address : Text
  pub tls : TlsSettings

pub data Transport : Type 0 where
  tcp4 tcp6 : TcpDescriptor → Transport
  udp4 udp6 : Transport

pub record Locator : Type 0 where
  pub kind : LocatorKind
  pub ip : Text
  pub physical_port : ℕ

pub record Configuration : Type 0 where
  pub listening_addresses : List Address
  pub connection_addresses : List Address
  pub tls_configuration : TlsConfiguration

-- What the method computes: the attributes, and its local variables
pub record State : Type 0 where
  pub user_transports : List Transport
  pub metatraffic_unicast_locators : List Locator
  pub default_unicast_locators : List Locator
  pub initial_peers : List Locator
  pub has_listening_addresses : Bool
  pub has_listening_tcp_ipv4 : Bool
  pub has_listening_tcp_ipv6 : Bool
  pub has_connection_tcp_ipv4 : Bool
  pub has_connection_tcp_ipv6 : Bool
  pub has_connection_udp_ipv4 : Bool
  pub has_connection_udp_ipv6 : Bool
  pub has_udp_ipv4 : Bool
  pub has_udp_ipv6 : Bool

-- A method returns, throws, or still runs when its fuel is used up.
pub data Outcome (A : Type 0) : Type 0 where
  returns : A → Outcome A
  throws : Outcome A
  runs : Outcome A

infixl 5 ◌>>=◌
abbrev pub ◌>>=◌ : {A B : Type 0} → Outcome A → (A → Outcome B) → Outcome B
returns a >>= f = f a
throws >>= f = throws
runs >>= f = runs

abbrev pub is_ipv4 : Address → Bool
is_ipv4 a = elim a.ip_version [ v4 ↦ true | v6 ↦ false ]

abbrev pub is_at : Text → Transport → Bool
is_at ip (tcp4 d) = text_eq ip d.wan_address
is_at ip _ = false

abbrev pub port_added : ℕ → Transport → Transport
port_added port (tcp4 d) = tcp4 (record d { ports = d.ports ++ port ∷ [] })
port_added port t = t

-- The search for a descriptor with the same WAN address, from `it` on: the descriptor, and the list
-- without it. `it` is not moved on.
unfoldable pub find_descriptor :
    ℕ → Text → List Transport → Outcome (Option (Transport × List Transport))
unfolding text_eq
find_descriptor zero ip ts = runs
find_descriptor (suc fuel) ip [] = returns none
find_descriptor (suc fuel) ip (t ∷ ts) =
    let again = find_descriptor fuel ip (t ∷ ts) in
    if is_at ip t then returns (some (t, ts)) else again

-- A new TCP descriptor, with a port to listen to if there is one
abbrev pub new_descriptor : List ℕ → Text → TlsSettings → TcpDescriptor
new_descriptor ports wan_address tls = record {
  ports = ports;
  wan_address = wan_address;
  tls = tls;
}

abbrev pub no_settings : TlsSettings
no_settings = record {
  apply_security = false;
  options = [];
  verify_modes = [];
  verify_file = [];
  server_name = [];
  password = [];
  private_key_file = [];
  cert_chain_file = [];
  tmp_dh_file = [];
}

-- "Enable TLS", if it is active, on a new descriptor
unfoldable pub secure : TlsConfiguration → Bool → Outcome TlsSettings
unfolding is_active enable_tls
secure c as_client =
    if is_active c
    then elim (enable_tls c as_client no_settings) [ none ↦ throws | some s ↦ returns s ]
    else returns no_settings

abbrev pub add_transport : Transport → State → State
add_transport t s = record s { user_transports = s.user_transports ++ t ∷ [] }

-- A TCP address of version 4 to listen to: its port is added to the descriptor that is found, which goes
-- to the end, or to a new one.
unfoldable pub listen_tcp4 : (Text → Text) → ℕ → TlsConfiguration → Address → State → Outcome State
unfolding find_descriptor secure
listen_tcp4 printed_wan fuel c a s0 =
    let s : State = record s0 { has_listening_tcp_ipv4 = true } in
    do
      found ← find_descriptor fuel a.ip s.user_transports
      elim found [
        | some (t, rest) ↦
            returns (add_transport (port_added a.port t) (record s { user_transports = rest }))
        | none ↦ do
          settings ← secure c false
          returns
              (add_transport (tcp4 (new_descriptor (a.port ∷ []) (printed_wan a.ip) settings)) s)
      ]

unfoldable pub listen_tcp6 : TlsConfiguration → Address → State → Outcome State
unfolding secure
listen_tcp6 c a s = do
  settings ← secure c false
  returns (
      add_transport (tcp6 (new_descriptor (a.port ∷ []) [] settings))
        (record s { has_listening_tcp_ipv6 = true }))

-- The flags of UDP: those of the latest address
abbrev pub note_udp : Address → State → State
note_udp a s = record s { has_udp_ipv4 = is_ipv4 a; has_udp_ipv6 = not (is_ipv4 a) }

-- The locator of an address: a TCP one announces the external port.
unfoldable pub listening_locator : Address → Locator
unfolding get_locator_kind
listening_locator a = record {
  kind = get_locator_kind a;
  ip = a.ip;
  physical_port = if is_udp a.transport_protocol then a.port else a.external_port;
}

abbrev pub add_listening_locator : Address → State → State
add_listening_locator a s = record s {
  metatraffic_unicast_locators = s.metatraffic_unicast_locators ++ listening_locator a ∷ [];
  default_unicast_locators = s.default_unicast_locators ++ listening_locator a ∷ [];
}

unfoldable pub connection_locator : Address → Locator
unfolding get_locator_kind
connection_locator a = record { kind = get_locator_kind a; ip = a.ip; physical_port = a.port }

-- ===== src/Address.antt =====
-- Address (ddspipe_participants/src/cpp/types/address/Address.cpp). The tests of an IP and the name
-- service are those of Fast DDS (IPLocator).
pub mod Order
pub mod Domain
mod Tests
use dds_pipe.Base.{
  ℕ, Bool, true, false, not, List, [], ◌∷◌, Option, none, some, if◌then◌else◌, ◌==◌, ◌&&◌, ltb,
}
use dds_pipe.Rpc.Text.{Text, codes}
use dds_pipe.Topics.{text_eq, text_lt}

-- `IpVersion` and `TransportProtocol`, in the order of their values
pub data IpVersion : Type 0 where
  v4 v6 : IpVersion

pub data TransportProtocol : Type 0 where
  udp tcp : TransportProtocol

pub data LocatorKind : Type 0 where
  udp_v4 tcp_v4 udp_v6 tcp_v6 : LocatorKind

pub record Locators : Type 0 where
  pub is_ipv4 : Text → Bool
  pub is_ipv6 : Text → Bool
  -- The two sets of a response, of version 4 and of version 6, in their order
  pub resolve_name_dns : Text → List Text × List Text
  -- What `get_WAN_address` of a TCP descriptor gives for an IP that `set_WAN_address` was given: it
  -- prints the four octets that were read
  pub printed_wan : Text → Text

pub record Address : Type 0 where
  pub ip : Text
  pub domain : Text
  pub has_domain : Bool
  pub has_valid_domain : Bool
  pub port : ℕ
  pub external_port : ℕ
  pub ip_version : IpVersion
  pub transport_protocol : TransportProtocol

abbrev pub default_port : ℕ
default_port = 11666

unfoldable pub default_ip : IpVersion → Text
default_ip v4 = codes "127.0.0.1"
default_ip v6 = codes "::1"

unfoldable pub create : Text → ℕ → ℕ → IpVersion → TransportProtocol → Address
create ip port external_port ip_version transport_protocol = record {
  ip = ip;
  domain = [];
  has_domain = false;
  has_valid_domain = false;
  port = port;
  external_port = external_port;
  ip_version = ip_version;
  transport_protocol = transport_protocol;
}

-- `Address()`
unfoldable pub default_address : Address
unfolding create default_ip
default_address = create (default_ip v4) default_port default_port v4 udp

abbrev pub is_udp : TransportProtocol → Bool
is_udp udp = true
is_udp tcp = false

abbrev version_lt : IpVersion → IpVersion → Bool
version_lt v4 v6 = true
version_lt _ _ = false

abbrev protocol_lt : TransportProtocol → TransportProtocol → Bool
protocol_lt udp tcp = true
protocol_lt _ _ = false

unfoldable pub get_locator_kind : Address → LocatorKind
get_locator_kind a = elim a.ip_version [
  | v4 ↦ if is_udp a.transport_protocol then udp_v4 else tcp_v4
  | v6 ↦ if is_udp a.transport_protocol then udp_v6 else tcp_v6
]

-- `operator <`
unfoldable pub address_lt : Address → Address → Bool
unfolding text_lt
address_lt this other =
    if text_lt this.ip other.ip
    then true
    else if text_lt other.ip this.ip
    then false
    else if ltb this.port other.port
    then true
    else if ltb other.port this.port
    then false
    else if protocol_lt this.transport_protocol other.transport_protocol
    then true
    else if protocol_lt other.transport_protocol this.transport_protocol
    then false
    else version_lt this.ip_version other.ip_version

-- `resolve_dns` for a version; `none` is a DNSException.
unfoldable pub first_of : List Text → Option Text
first_of [] = none
first_of (ip ∷ ips) = some ip

module _ (x : Locators) where
  open x use {is_ipv4, is_ipv6, resolve_name_dns}

  unfoldable pub resolve_dns : Text → IpVersion → Option Text
  unfolding first_of
  resolve_dns domain v4 = first_of (resolve_name_dns domain).0
  resolve_dns domain v6 = first_of (resolve_name_dns domain).1

  -- `resolve_dns` for any version: one of version 4, if there is any
  unfoldable pub resolve_any_dns : Text → Option (Text × IpVersion)
  unfolding first_of
  resolve_any_dns domain = elim (first_of (resolve_name_dns domain).0) [
    | some ip ↦ some (ip, v4)
    | none ↦ elim (first_of (resolve_name_dns domain).1) [ some ip ↦ some (ip, v6) | none ↦ none ]
  ]

  -- The constructor that finds out the version of an IP
  unfoldable pub create_for_ip : Text → ℕ → ℕ → TransportProtocol → Address
  unfolding create
  create_for_ip ip port external_port transport_protocol =
      let a = create ip port external_port v4 transport_protocol in
      if is_ipv6 ip then record a { ip_version = v6 } else a

  -- The constructors from a domain. The second sets no version when there is no IP for the domain: then
  -- it is what stands in memory.
  unfoldable pub create_for_domain : ℕ → ℕ → IpVersion → Text → TransportProtocol → Address
  unfolding create resolve_dns
  create_for_domain port external_port ip_version domain transport_protocol =
      let a : Address = record (create [] port external_port ip_version transport_protocol) {
        domain = domain;
        has_domain = true;
      } in
      elim (resolve_dns domain ip_version) [
        | none ↦ a
        | some ip ↦ record a { ip = ip; has_valid_domain = true }
      ]

  unfoldable pub create_for_any_domain : IpVersion → ℕ → ℕ → Text → TransportProtocol → Address
  unfolding create resolve_any_dns
  create_for_any_domain in_memory port external_port domain transport_protocol =
      let a : Address = record (create [] port external_port in_memory transport_protocol) {
        domain = domain;
        has_domain = true;
      } in
      elim (resolve_any_dns domain) [
        | none ↦ a
        | some r ↦ record a { ip = r.0; ip_version = r.1; has_valid_domain = true }
      ]

  abbrev pub is_correct : IpVersion → Text → Bool
  is_correct v4 ip = is_ipv4 ip
  is_correct v6 ip = is_ipv6 ip

  unfoldable pub is_valid : Address → Bool
  is_valid a =
      if a.has_domain && not a.has_valid_domain
      then false
      else if is_udp a.transport_protocol && not (a.port == a.external_port)
      then false
      else is_correct a.ip_version a.ip

  abbrev same_protocol : TransportProtocol → TransportProtocol → Bool
  same_protocol udp udp = true
  same_protocol tcp tcp = true
  same_protocol _ _ = false

  abbrev same_truth : Bool → Bool → Bool
  same_truth true b = b
  same_truth false b = not b

  -- `operator ==`
  unfoldable pub address_eq : Address → Address → Bool
  unfolding text_eq is_valid
  address_eq this other =
      text_eq this.ip other.ip
      && (this.port == other.port)
      && same_protocol this.transport_protocol other.transport_protocol
      && same_truth (is_valid this) (is_valid other)

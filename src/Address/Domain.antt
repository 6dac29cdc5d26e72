-- ===== src/Address/Domain.antt =====
-- Addresses from the name of a domain.
use dds_pipe.Base.{ℕ, ◌≡◌, false, not, none, some, ◌==◌, ◌&&◌, ◌||◌, arith}
use dds_pipe.Rpc.Text.{Text}
use dds_pipe.Address.{
  Locators, IpVersion, TransportProtocol, is_udp, resolve_any_dns, create_for_any_domain, is_valid,
  first_of, create,
}

module _ (x : Locators) where
  open x use {is_ipv4, is_ipv6, resolve_name_dns}

  -- An address from a domain is valid exactly when UDP has one port for both sides and the name service
  -- gives an IP that is correct for its version: the first of version 4 or, where there is
  -- none, the first of version 6. What stood in the memory of the address does not matter.
  pub create_for_any_domain-is_valid :
      (in_memory : IpVersion) (port external_port : ℕ) (domain : Text)
      (transport_protocol : TransportProtocol)
      → is_valid x (create_for_any_domain x in_memory port external_port domain transport_protocol)
        ≡ ((not (is_udp transport_protocol) || (port == external_port))
            && elim (first_of (resolve_name_dns domain).0) [
              | some ip ↦ is_ipv4 ip
              | none ↦ elim (first_of (resolve_name_dns domain).1) [
                | some ip ↦ is_ipv6 ip
                | none ↦ false
              ]
            ])
  unfolding is_valid create_for_any_domain resolve_any_dns create
  create_for_any_domain-is_valid in_memory port external_port domain transport_protocol =
      ground arith

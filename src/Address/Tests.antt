-- ===== src/Address/Tests.antt =====
-- Addresses at examples.
use dds_pipe.Base.{◌≡◌, ◌⊎◌, refl, true, false, [], ◌∷◌}
use dds_pipe.Rpc.Text.{codes}
use dds_pipe.Address.{
  Locators, Address, v4, v6, udp, tcp, create, create_for_any_domain, address_lt, address_eq,
  is_valid, first_of,
}
use dds_pipe.Address.Domain.{create_for_any_domain-is_valid}
use dds_pipe.Address.Order.{IsSame, address_lt-compared}

-- The name service knows one domain, by version 6 only; every text of two bytes is correct.
abbrev locators : Locators
locators = record {
  is_ipv4 = λ ip. false;
  is_ipv6 = λ ip. elim ip [ [] ↦ false | c ∷ cs ↦ true ];
  resolve_name_dns = λ domain. ([], codes "::1" ∷ []);
  printed_wan = λ ip. ip;
}

create_for_any_domain-is_valid_applied :
    is_valid locators (create_for_any_domain locators v4 11666 11666 (codes "localhost") udp) ≡ true
unfolding first_of
create_for_any_domain-is_valid_applied =
    create_for_any_domain-is_valid locators v4 11666 11666 (codes "localhost") udp

abbrev inner : Address
inner = create (codes "::1") 11666 11666 v6 tcp

abbrev outer : Address
outer = create (codes "::1") 11666 11777 v6 tcp

-- Two external ports of one address
address_lt-compared_example :
    ((address_lt inner outer ≡ true) × (address_lt outer inner ≡ false))
    ⊎ ((address_lt inner outer ≡ false) × (address_lt outer inner ≡ true))
    ⊎ ((address_lt inner outer ≡ false) × (address_lt outer inner ≡ false) × IsSame inner outer)
address_lt-compared_example = address_lt-compared inner outer

-- Addresses that are equal, and of which one is less than the other
equal_and_less :
    (address_eq locators (create [] 1 1 v4 udp) (create [] 1 1 v6 udp) ≡ true)
    × (address_lt (create [] 1 1 v4 udp) (create [] 1 1 v6 udp) ≡ true)
unfolding address_eq address_lt create
equal_and_less = (refl, refl)

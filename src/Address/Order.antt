-- ===== src/Address/Order.antt =====
-- The order of addresses, by which sets of them are kept.
use dds_pipe.Base.{◌≡◌, ◌⊎◌, true, false, arith}
use dds_pipe.Topics.Order.{text_lt_self, text_lt-connected, text_lt_trans}
use dds_pipe.Address.{Address, address_lt}

-- The same IP, port, protocol and version: all but the domain and the external port
abbrev pub IsSame : Address → Address → Type 0
IsSame a b =
    (a.ip ≡ b.ip)
    × (a.port ≡ b.port)
    × (a.transport_protocol ≡ b.transport_protocol)
    × (a.ip_version ≡ b.ip_version)

-- Of two addresses the one is less than the other, or the other than the one, never both; or neither
-- is, and then they have the same IP, port, protocol and IP version.
pub address_lt-compared :
    (a b : Address)
    → ((address_lt a b ≡ true) × (address_lt b a ≡ false))
      ⊎ ((address_lt a b ≡ false) × (address_lt b a ≡ true))
      ⊎ ((address_lt a b ≡ false) × (address_lt b a ≡ false) × IsSame a b)
unfolding address_lt
address_lt-compared a b =
    ground (arith, text_lt-connected a.ip b.ip, text_lt_self a.ip, text_lt_trans a.ip b.ip a.ip)

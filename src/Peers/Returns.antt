-- ===== src/Peers/Returns.antt =====
-- A configuration for which `reckon_participant_attributes_` does not return.
use dds_pipe.Base.{ℕ, zero, suc, ◌≡◌, ◌≢◌, refl, true, false, List, [], ◌∷◌, arith}
use dds_pipe.Address.{Address, Locators, is_udp}
use dds_pipe.Peers.Participant.{
  listen, listen_valid, start, is_valid, reckon_participant_attributes,
}
use dds_pipe.Peers.Transports.{
  new_descriptor, Configuration, Outcome, returns, throws, runs, Transport, tcp4, is_at,
  find_descriptor, listen_tcp4, secure, is_ipv4,
}
use dds_pipe.Peers.Tls.{TlsConfiguration, TlsSettings}
use dds_pipe.Rpc.Text.{Text}
use dds_pipe.Topics.{text_eq}

-- The first transport is not the one that is looked for: no fuel is enough.
find_descriptor-runs :
    (fuel : ℕ) (ip : Text) (t : Transport) (ts : List Transport)
    → is_at ip t ≡ false
    → find_descriptor fuel ip (t ∷ ts) ≡ runs
unfolding find_descriptor
find_descriptor-runs zero ip t ts h = refl
find_descriptor-runs (suc fuel) ip t ts h = ground (arith, h, find_descriptor-runs fuel ip t ts)

-- A valid address over TCP of version 4
abbrev pub IsTcp4 : Locators → Address → Type 0
IsTcp4 x a = (is_valid x a ≡ true) × (is_udp a.transport_protocol ≡ false) × (is_ipv4 a ≡ true)

-- Whoever listens at a second IP over TCP of version 4, after a first, never returns.
listen-runs :
    (fuel : ℕ) (x : Locators) (c : TlsConfiguration) (a b : Address) (rest : List Address)
    → IsTcp4 x a
    → IsTcp4 x b
    → text_eq b.ip (x.printed_wan a.ip) ≡ false
    → secure c false ≢ throws
    → listen x fuel c (a ∷ b ∷ rest) start ≡ runs
unfolding listen listen_valid listen_tcp4 find_descriptor
listen-runs zero x c a b rest v w other t = ground arith
listen-runs (suc fuel) x c a b rest v w other t = by_settings (secure c false) refl
  where
    by_settings :
        (o : Outcome TlsSettings)
        → secure c false ≡ o
        → listen x (suc fuel) c (a ∷ b ∷ rest) start ≡ runs
    by_settings throws e = absurd (t e)
    by_settings runs e = ground arith
    by_settings (returns z) e = ground (
      arith,
      other,
      find_descriptor-runs (suc fuel) b.ip
          (tcp4 (new_descriptor (a.port ∷ []) (x.printed_wan a.ip) z)) [],
    )

-- A configuration whose first two listening addresses are valid and over TCP of version 4, where the IP of
-- the second is not the text that the descriptor of the first gives for its IP, and whose TLS settings
-- can be made for a server if they are active: the method does not return, whatever fuel it is given.
pub two_ips-run :
    (fuel : ℕ) (x : Locators) (configuration : Configuration) (a b : Address) (rest : List Address)
    → configuration.listening_addresses ≡ a ∷ b ∷ rest
    → IsTcp4 x a
    → IsTcp4 x b
    → text_eq b.ip (x.printed_wan a.ip) ≡ false
    → secure configuration.tls_configuration false ≢ throws
    → reckon_participant_attributes fuel x configuration ≡ runs
unfolding reckon_participant_attributes
two_ips-run fuel x configuration a b rest e v w other t =
    ground (arith, e, listen-runs fuel x configuration.tls_configuration a b rest v w other t)

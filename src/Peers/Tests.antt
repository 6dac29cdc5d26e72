-- ===== src/Peers/Tests.antt =====
-- Initial peers at examples.
use dds_pipe.Base.{ℕ, ◌≡◌, ◌≢◌, refl, inr, true, false, List, [], ◌∷◌}
use dds_pipe.Address.{Address, Locators, IpVersion, v4, v6, TransportProtocol, udp, tcp, create}
use dds_pipe.Peers.Participant.{reckon_participant_attributes}
use dds_pipe.Peers.Transports.{
  Configuration, State, Transport, udp6, Outcome, returns, throws, runs, secure,
}
use dds_pipe.Peers.OneAddress.{one_ip-returns}
use dds_pipe.Peers.Returns.{two_ips-run}
use dds_pipe.Peers.Tls.{TlsConfiguration, inactive}
use dds_pipe.Rpc.Text.{Text, codes}

-- Every IP is correct for its version.
abbrev locators : Locators
locators = record {
  is_ipv4 = λ ip. true;
  is_ipv6 = λ ip. true;
  resolve_name_dns = λ domain. ([], []);
  printed_wan = λ ip. ip;
}

abbrev no_tls : TlsConfiguration
no_tls = record {
  kind = inactive;
  verify_peer = true;
  certificate_authority_file = [];
  sni_server_name = [];
  private_key_file_password = [];
  private_key_file = [];
  certificate_chain_file = [];
  dh_params_file = [];
}

abbrev at : Text → ℕ → IpVersion → TransportProtocol → Address
at ip port version protocol = record {
  ip = ip;
  domain = [];
  has_domain = false;
  has_valid_domain = false;
  port = port;
  external_port = port;
  ip_version = version;
  transport_protocol = protocol;
}

abbrev listening : List Address → Configuration
listening addresses = record {
  listening_addresses = addresses;
  connection_addresses = [];
  tls_configuration = no_tls;
}

abbrev first : Address
first = at (codes "10.0.0.1") 5100 v4 tcp

abbrev second : Address
second = at (codes "10.0.0.2") 5100 v4 tcp

abbrev other_port : Address
other_port = at (codes "10.0.0.1") 5200 v4 tcp

no_throw : secure no_tls false ≢ throws
unfolding secure
no_throw e = cc

two_ips-run_example :
    reckon_participant_attributes 1_000_000 locators (listening (first ∷ second ∷ [])) ≡ runs
unfolding dds_pipe.Address.is_valid dds_pipe.Topics.text_eq
two_ips-run_example =
    two_ips-run 1_000_000 locators (listening (first ∷ second ∷ [])) first second [] refl
      (refl, refl, refl) (refl, refl, refl) refl no_throw

one_ip-returns_example :
    (s : State) × (reckon_participant_attributes 1 locators (listening (first ∷ other_port ∷ []))
      ≡ returns s)
unfolding dds_pipe.Peers.Participant.configuration_is_valid dds_pipe.Address.is_valid
one_ip-returns_example =
    one_ip-returns 0 locators (listening (first ∷ other_port ∷ [])) true (codes "10.0.0.1") refl
      (inr (refl, refl), (inr (refl, refl), tt)) refl

abbrev transports : Outcome State → List Transport
transports (returns s) = s.user_transports
transports _ = []

-- Addresses of both versions over UDP: only the transport of the second is made.
udp_of_last :
    transports (
      reckon_participant_attributes 1 locators
        (listening (at (codes "10.0.0.1") 5100 v4 udp ∷ at (codes "::1") 5100 v6 udp ∷ [])))
    ≡ udp6 ∷ []
unfolding reckon_participant_attributes dds_pipe.Address.is_valid
udp_of_last = refl

-- ===== src/Peers/Tls.antt =====
-- TlsConfiguration (ddspipe_participants/src/cpp/types/security/tls/TlsConfiguration.cpp), and the part
-- of a TCP transport descriptor of Fast DDS that it fills in.
use dds_pipe.Base.{
  Bool, true, false, not, List, [], ◌∷◌, ◌++◌, Option, none, some, if◌then◌else◌, ◌&&◌,
}
use dds_pipe.Rpc.Text.{Text}
use dds_pipe.Topics.{is_empty}

pub data TlsKind : Type 0 where
  inactive client server both : TlsKind

pub record TlsConfiguration : Type 0 where
  pub kind : TlsKind
  pub verify_peer : Bool
  pub certificate_authority_file : Text
  pub sni_server_name : Text
  pub private_key_file_password : Text
  pub private_key_file : Text
  pub certificate_chain_file : Text
  pub dh_params_file : Text

pub data TlsOption : Type 0 where
  default_workarounds single_dh_use no_sslv2 : TlsOption

pub data VerifyMode : Type 0 where
  verify_none verify_peer_mode verify_fail_if_no_peer_cert : VerifyMode

-- `apply_security` and `tls_config` of a descriptor
pub record TlsSettings : Type 0 where
  pub apply_security : Bool
  pub options : List TlsOption
  pub verify_modes : List VerifyMode
  pub verify_file : Text
  pub server_name : Text
  pub password : Text
  pub private_key_file : Text
  pub cert_chain_file : Text
  pub tmp_dh_file : Text

unfoldable pub is_active : TlsConfiguration → Bool
is_active c = elim c.kind [ inactive ↦ false | _ ↦ true ]

-- `compatible<TlsKind::client>` and `compatible<TlsKind::server>`
unfoldable pub client_compatible : TlsConfiguration → Bool
client_compatible c = elim c.kind [ client ↦ true | both ↦ true | _ ↦ false ]

unfoldable pub server_compatible : TlsConfiguration → Bool
server_compatible c = elim c.kind [ server ↦ true | both ↦ true | _ ↦ false ]

unfoldable pub enable_tls_client : TlsConfiguration → Bool → TlsSettings → TlsSettings
enable_tls_client c only_client d = record d {
  verify_modes =
      if only_client && c.verify_peer
      then d.verify_modes ++ verify_fail_if_no_peer_cert ∷ []
      else d.verify_modes;
  verify_file = c.certificate_authority_file;
  server_name = c.sni_server_name;
}

unfoldable pub enable_tls_server : TlsConfiguration → TlsSettings → TlsSettings
enable_tls_server c d = record d {
  password = c.private_key_file_password;
  private_key_file = c.private_key_file;
  cert_chain_file = c.certificate_chain_file;
  tmp_dh_file = c.dh_params_file;
}

-- `none` is a ConfigurationException.
unfoldable pub enable_tls : TlsConfiguration → Bool → TlsSettings → Option TlsSettings
unfolding client_compatible server_compatible enable_tls_client enable_tls_server
enable_tls c as_client d =
    let secured : TlsSettings = record d {
      apply_security = true;
      options = d.options ++ default_workarounds ∷ single_dh_use ∷ no_sslv2 ∷ [];
      verify_modes =
          d.verify_modes ++ (if c.verify_peer then verify_peer_mode else verify_none) ∷ [];
    } in
    let served = enable_tls_server c secured in
    if as_client
    then (if not (client_compatible c) then none else some (enable_tls_client c true secured))
    else (if not (server_compatible c)
        then none
        else some (if client_compatible c then enable_tls_client c false served else served))

-- `is_valid_kind` for a client and for a server, and `is_valid`
unfoldable pub is_valid_client : TlsConfiguration → Bool
is_valid_client c = not (c.verify_peer && is_empty c.certificate_authority_file)

unfoldable pub is_valid_server : TlsConfiguration → Bool
is_valid_server c =
    if is_empty c.private_key_file
    then false
    else if is_empty c.dh_params_file
    then false
    else not (is_empty c.certificate_chain_file)

unfoldable pub is_valid : TlsConfiguration → Bool
unfolding is_valid_client is_valid_server
is_valid c = elim c.kind [
  | inactive ↦ true
  | client ↦ is_valid_client c
  | server ↦ is_valid_server c
  | both ↦ is_valid_client c && is_valid_server c
]

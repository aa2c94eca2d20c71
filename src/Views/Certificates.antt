-- ===== src/Views/Certificates.antt =====
-- components/profiles/CertificateManagerModal.tsx: the dialog for certificates and keys, and what
-- components/profiles/ProfileModal.tsx, which opens it, gives to it and takes from it.
pub mod Laws
use vpnhub.Prelude.{
  ℕ, ◌≡◌, ◌≢◌, refl, sym, ap, ◌∙◌, ◌⊎◌, inl, inr, String, Bool, true, false, Option, none, some,
  if◌then◌else◌, nonempty, truthy, or_text, get_or, Bool-cases, str_eq,
}
use vpnhub.Types.{VpnProfile, Credentials}
use vpnhub.Views.Trim.{trim, trim-twice}
use vpnhub.Views.Form.{Form, or_empty, or_undefined, form_credentials, chosen_direction}

pub record TlsSecurityConfig : Type 0 where
  pub ca_cert : Option String
  pub tls_auth_key : Option String
  pub tls_crypt_key : Option String
  pub key_direction : Option String
  pub client_cert : Option String
  pub client_key : Option String
  pub remote_cert_tls_server : Option Bool
  pub reneg_sec : Option ℕ

pub data TlsMode : Type 0 where
  off tls_auth tls_crypt : TlsMode

-- The state of the dialog.
pub record Dialog : Type 0 where
  pub ca_cert : String
  pub tls_mode : TlsMode
  pub tls_auth_key : String
  pub tls_crypt_key : String
  pub key_direction : String
  pub client_cert : String
  pub client_key : String
  pub remote_cert_tls_server : Bool
  pub reneg_sec : Option ℕ

unfoldable pub mode_of : Option String → Option String → TlsMode
mode_of auth_key crypt_key =
    if truthy crypt_key
    then TlsMode.tls_crypt
    else if truthy auth_key
    then TlsMode.tls_auth
    else TlsMode.off

-- What the effect puts into the dialog when it is opened.
unfoldable pub open_dialog : TlsSecurityConfig → Dialog
open_dialog config = record {
  ca_cert = or_empty config.ca_cert;
  tls_mode = mode_of config.tls_auth_key config.tls_crypt_key;
  tls_auth_key = or_empty config.tls_auth_key;
  tls_crypt_key = or_empty config.tls_crypt_key;
  key_direction = or_text config.key_direction "none";
  client_cert = or_empty config.client_cert;
  client_key = or_empty config.client_key;
  remote_cert_tls_server = get_or config.remote_cert_tls_server true;
  reneg_sec = config.reneg_sec;
}

abbrev pub if_auth : TlsMode → Option String → Option String
if_auth TlsMode.tls_auth value = value
if_auth _ value = none

abbrev pub if_crypt : TlsMode → Option String → Option String
if_crypt TlsMode.tls_crypt value = value
if_crypt _ value = none

-- What `handleSave` hands to `onSave`.
unfoldable pub save_dialog : Dialog → TlsSecurityConfig
save_dialog d = record {
  ca_cert = or_undefined (trim d.ca_cert);
  tls_auth_key = if_auth d.tls_mode (or_undefined (trim d.tls_auth_key));
  tls_crypt_key = if_crypt d.tls_mode (or_undefined (trim d.tls_crypt_key));
  key_direction = if_auth d.tls_mode (some d.key_direction);
  client_cert = or_undefined (trim d.client_cert);
  client_key = or_undefined (trim d.client_key);
  remote_cert_tls_server = some d.remote_cert_tls_server;
  reneg_sec = d.reneg_sec;
}

-- The `config` that the profile form gives to the dialog.
unfoldable pub dialog_config : Form → TlsSecurityConfig
dialog_config f = record {
  ca_cert = some f.ca_cert;
  tls_auth_key = some f.tls_auth_key;
  tls_crypt_key = some f.tls_crypt_key;
  key_direction = some f.key_direction;
  client_cert = some f.client_cert;
  client_key = some f.client_key;
  remote_cert_tls_server = some f.remote_cert_tls_server;
  reneg_sec = f.reneg_sec;
}

-- The profile form's `onSave`.
unfoldable pub apply_config : TlsSecurityConfig → Form → Form
apply_config cfg f = record f {
  ca_cert = or_empty cfg.ca_cert;
  tls_auth_key = or_empty cfg.tls_auth_key;
  tls_crypt_key = or_empty cfg.tls_crypt_key;
  client_cert = or_empty cfg.client_cert;
  client_key = or_empty cfg.client_key;
  key_direction = or_text cfg.key_direction "none";
  remote_cert_tls_server = get_or cfg.remote_cert_tls_server true;
  reneg_sec = cfg.reneg_sec;
}

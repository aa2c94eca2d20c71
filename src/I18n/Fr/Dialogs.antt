-- ===== src/I18n/Fr/Dialogs.antt =====
-- packages/app/src/i18n/locales/fr.ts: the texts of the dialogs in French.
use vpnhub.I18n.Dictionary.Dialogs.{Modals}

unfoldable pub modals : Modals
modals = record {
  mfa_title = "Authentification à deux facteurs (2FA / TOTP)";
  mfa_subtitle = "Entrez le code TOTP / MFA dynamique à 6 chiffres pour établir la connexion VPN.";
  mfa_placeholder = "000000";
  mfa_confirm = "Authentifier & Connecter";
  mfa_username = "Nom d'utilisateur";
  mfa_password = "Mot de passe";
  mfa_code_label = "Code TOTP / MFA";
  dns_leak_title = "Test automatisé de fuites DNS";
  dns_leak_desc =
      "Sondage des résolveurs mondiaux pour détecter toute fuite DNS hors du tunnel chiffré.";
  dns_leak_testing = "Détection des fuites de résolveurs DNS...";
  dns_leak_passed =
      "Aucune fuite DNS détectée • Votre trafic transite strictement par les résolveurs privés.";
  dns_leak_failed =
      "Fuite DNS détectée • Des requêtes DNS non chiffrées ont été observées hors du tunnel.";
  dns_servers_found = "Résolveurs détectés";
  dns_public_ip = "Adresse IP du résolveur";
  dns_isp = "FAI (Fournisseur)";
  dns_location = "Emplacement";
  new_profile_title = "Créer un profil de connexion VPN";
  new_profile_wireguard_title = "Protocole WireGuard";
  new_profile_wireguard_desc =
      "Tunnel chiffré moderne ultra-rapide ChaCha20 avec paires de clés légères.";
  new_profile_openvpn_title = "Protocole OpenVPN";
  new_profile_openvpn_desc =
      "Standard industriel VPN d'entreprise SSL/TLS avec prise en charge du 2FA.";
  new_profile_import_title = "Importer une configuration existante";
  new_profile_import_desc =
      "Glissez-déposez directement vos fichiers .ovpn, .conf ou certificats clients.";
  import_dropzone_text = "Glissez un fichier de configuration .ovpn ici ou cliquez pour parcourir";
  import_dropzone_subtext =
      "Prend en charge le format unifié OpenVPN (.ovpn) avec certificats intégrés";
  dropzone_release = "Relâchez le fichier pour importer";
  dropzone_drop_now = "Déposez le fichier maintenant";
  dropzone_analyzing = "Analyse et extraction de la configuration...";
  dropzone_extracting = "Extraction des certificats TLS, clés et points de terminaison depuis";
  invalid_file_type =
      "Type de fichier invalide. Veuillez importer un fichier .ovpn ou .conf valide.";
  failed_read_file = "Échec de la lecture du fichier de configuration. Veuillez réessayer.";
  failed_parse_file = "Échec de l'analyse du fichier de configuration VPN.";
  export_diag_title = "Exporter les journaux de diagnostic";
  export_diag_subtitle =
      "Téléchargez ou copiez les données techniques et journaux pour le dépannage.";
  export_download_json = "Télécharger le fichier JSON";
  export_copy_text = "Copier dans le presse-papiers";
  export_include_logs = "Inclure les 200 derniers journaux du démon";
  export_include_routes = "Inclure la table de routage active du noyau (ip route)";
  export_include_dns = "Inclure l'état du cache de résolution DNS";
  export_sanitize_private = "Masquer automatiquement les mots de passe et clés privées";
  export_compiling = "Compilation et chiffrement de l'archive...";
  qr_title = "Synchroniser le profil sur mobile";
  qr_subtitle =
      "Scannez ce code QR dans l'application VPNHub iOS ou Android pour importer le profil.";
  qr_copy_base64 = "Copier la chaîne de configuration Base64";
  proto_select_import_title = "Importer un profil - Choisir le protocole";
  proto_select_add_title = "Nouveau profil - Choisir le protocole";
  proto_select_import_desc = "Choisissez le type de configuration à importer :";
  proto_select_add_desc = "Choisissez le protocole VPN à configurer pour ce profil :";
  proto_wg_title = "WireGuard";
  proto_wg_badge_import = "Fichier .conf";
  proto_wg_badge_add = "UDP Peer-to-Peer";
  proto_wg_desc_import = "Importer une configuration WireGuard standard (.conf)";
  proto_wg_desc_add = "Débit ultra-rapide, cryptographie moderne et latence minimale.";
  proto_ovpn_title = "OpenVPN";
  proto_ovpn_badge_import = ".ovpn / .conf";
  proto_ovpn_badge_add = "TCP / UDP + 2FA";
  proto_ovpn_desc_import = "Importer un paquet client OpenVPN (.ovpn / .conf)";
  proto_ovpn_desc_add = "Protocole d'entreprise avec support TCP/UDP, 2FA OTP et certificats TLS.";
  import_wg_title = "Importer configuration WireGuard (.conf)";
  import_ovpn_title = "Importer configuration OpenVPN (.ovpn)";
  import_wg_dropzone = "Glissez et déposez le fichier WireGuard .conf ici";
  import_ovpn_dropzone = "Glissez et déposez le fichier OpenVPN .ovpn ou .conf ici";
  import_wg_help = "Prend en charge le format standard WireGuard (.conf) jusqu'à 5 Mo";
  import_ovpn_help = "Prend en charge le format unifié OpenVPN 2.x/3.x (.ovpn) jusqu'à 5 Mo";
  import_click_browse = "ou cliquez pour parcourir vos fichiers";
  err_expected_wg =
      "Le fichier sélectionné semble être une configuration OpenVPN. Veuillez sélectionner un fichier WireGuard (.conf) valide avec des directives [Interface].";
  err_expected_ovpn =
      "Le fichier sélectionné semble être une configuration WireGuard. Veuillez sélectionner un fichier OpenVPN (.ovpn) valide.";
  add_app_title = "Ajouter une règle de routage applicative";
  add_app_detected = "APPLICATIONS DÉTECTÉES SUR LE SYSTÈME";
  add_app_name_label = "Nom de l'application";
  add_app_name_placeholder = "Ex. : Navigateur Firefox";
  add_app_path_label = "Chemin du binaire / exécutable";
  add_app_path_placeholder = "/usr/bin/... ou C:\\Program Files\\...";
  add_app_policy_label = "Politique de routage";
  add_app_bypass_label = "Contournement VPN (Connexion Internet directe)";
  add_app_route_label = "Routage via le tunnel chiffré VPN";
  add_app_submit_btn = "Ajouter la règle";
  cert_manager_title = "Gestionnaire de Certificats & Sécurité TLS";
  tab_root_ca = "Autorité Racine (CA)";
  tab_tls_channel = "Canal TLS";
  tab_client_identity = "Identité Client";
  tab_advanced = "Avancé";
  root_ca_title = "Autorité de certification (<ca>)";
  root_ca_loaded = "CA racine personnalisé chargé ({length} caractères)";
  root_ca_default_system = "Le magasin de certificats racine par défaut du système sera utilisé.";
  import_crt_pem = "Importer .crt / .pem";
  root_ca_pem_label = "Contenu PEM du CA racine";
  root_ca_pem_placeholder = "-----BEGIN CERTIFICATE-----\n...\n-----END CERTIFICATE-----";
  tls_mode_label = "Protection du canal de contrôle TLS";
  tls_mode_desc =
      "Fournit une signature HMAC supplémentaire ou un chiffrement complet du canal de contrôle.";
  tls_mode_none = "Aucun (Négociation TLS standard OpenVPN)";
  tls_mode_auth = "TLS-Auth (<tls-auth>) - Signature HMAC statique";
  tls_mode_crypt = "TLS-Crypt (<tls-crypt>) - Chiffrement complet du canal";
  tls_auth_static_key_title = "Clé statique TLS-Auth";
  tls_key_loaded = "Clé statique chargée ({length} car.)";
  no_key_loaded = "Aucune clé chargée";
  import_key_file = "Importer fichier .key";
  tls_auth_key_content_label = "Contenu de la clé TLS-Auth (<tls-auth>)";
  key_direction_label = "Direction de clé (key-direction)";
  key_direction_desc = "Doit correspondre à la configuration du serveur.";
  key_dir_none = "Aucun / Bidirectionnel";
  key_dir0 = "0 (Client / Entrant)";
  key_dir1 = "1 (Serveur / Sortant)";
  tls_crypt_key_title = "Clé symétrique TLS-Crypt";
  tls_crypt_key_content_label = "Contenu de la clé TLS-Crypt (<tls-crypt>)";
  client_identity_desc =
      "Requis pour le TLS mutuel (mTLS) ou l'authentification basée sur certificat.";
  client_cert_title = "Certificat client (<cert>)";
  client_cert_loaded = "Certificat client chargé ({length} car.)";
  no_cert_loaded = "Aucun certificat";
  import_crt = "Importer .crt";
  client_key_title = "Clé privée client (<key>)";
  client_key_loaded = "Clé privée chargée ({length} car.)";
  no_private_key_loaded = "Aucune clé privée";
  import_key = "Importer .key";
  verify_server_cert_title = "Vérifier le certificat du serveur";
  verify_server_cert_desc =
      "Applique le contrôle strict du certificat serveur (remote-cert-tls server)";
  reneg_sec_label = "Intervalle de renégociation (reneg-sec)";
  reneg_sec_placeholder = "Ex. : 0 pour désactiver le renouvellement des clés";
  reneg_sec_desc = "Défaut : 3600 secondes. Mettez 0 si votre serveur désactive la renégociation.";
  apply_cert_settings = "Appliquer les paramètres de certificats";
  wireguard_coming_soon_error =
      "Le protocole WireGuard est en cours de développement (Bientôt disponible). Veuillez utiliser une configuration OpenVPN (.ovpn).";
  create_wg_title = "Créer un profil WireGuard";
  create_ovpn_title = "Créer un profil OpenVPN";
  edit_wg_title = "Modifier le profil WireGuard";
  edit_ovpn_title = "Modifier le profil OpenVPN";
  server_settings_title = "Paramètres du serveur et de connexion";
  profile_name_label = "Nom du profil";
  profile_name_wg_placeholder = "Ex. : WireGuard Tunnel Paris";
  profile_name_ovpn_placeholder = "Ex. : OpenVPN Entreprise Staging";
  transport_proto_label = "Protocole de transport";
  server_host_label = "Hôte du serveur / IP";
  server_host_placeholder = "vpn.example.com ou 103.21.244.18";
  port_label = "Port";
  virtual_ip_label = "IP Virtuelle assignée (CIDR)";
  virtual_ip_desc = "IP statique attribuée pour ce pair WireGuard";
  intranet_only_title = "Utiliser cette connexion uniquement pour les ressources de son réseau";
  intranet_only_active_desc =
      "Split-Tunnel actif : Seuls les sous-réseaux internes sont routés ; Internet passe par la connexion locale";
  intranet_only_default_desc =
      "Défaut : Suit la configuration du serveur (utilise la passerelle VPN par défaut)";
  custom_subnets_label = "Sous-réseaux d'entreprise personnalisés (CIDR)";
  custom_subnets_placeholder = "Ex. : 10.0.0.0/8, 192.168.10.0/24, 172.16.0.0/12";
  custom_subnets_desc =
      "Sous-réseaux privés supplémentaires à router dans ce tunnel VPN (séparés par des virgules)";
  custom_subnets_hint =
      "💡 Les routes envoyées par le serveur et l'IP du tunnel sont automatiquement incluses.";
  keys_auth_title = "Clés et Authentification";
  wg_key_exchange_badge = "Échange de clés WireGuard";
  ovpn_auth2fa_badge = "Authentification OpenVPN & 2FA";
  wg_priv_key_label = "Clé privée WireGuard (Base64)";
  wg_priv_key_placeholder = "Clé privée du pair client (ex. : aGVwaGFlc3R1cy...)";
  wg_priv_key_desc = "Chiffré de manière sécurisée dans le coffre matériel AES-256-GCM";
  wg_psk_label = "Clé pré-partagée PSK (Bouclier Post-Quantique)";
  wg_psk_placeholder = "Clé symétrique 256 bits optionnelle";
  wg_psk_desc = "Couche supplémentaire de chiffrement symétrique post-quantique";
  ovpn_username_label = "Nom d'utilisateur";
  ovpn_username_placeholder = "Entrez le compte VPN";
  ovpn_auth_mode_label = "Mode d'authentification Mot de passe & 2FA / TOTP";
  auth_mode_static = "Mot de passe statique";
  auth_mode_totp_auto = "TOTP Automatique";
  auth_mode_dynamic_prompt = "Demander à la connexion";
  base_password_label = "Mot de passe de base";
  password_label = "Mot de passe";
  base_password_placeholder = "Mot de passe de base (ou laisser vide pour demander à la connexion)";
  password_placeholder = "Entrez le mot de passe";
  totp_secret_label = "Clé secrète TOTP (Base32)";
  totp_secret_placeholder = "Ex. : JBSWY3DPEHPK3PXP";
  totp_secret_desc = "Stocké de manière sécurisée dans le coffre-fort AES-256-GCM";
  totp_format_label = "Format de combinaison";
  totp_format_append = "Mot de passe de base + TOTP (Ex. : MonPasse123456)";
  totp_format_prefix = "TOTP + Mot de passe de base (Ex. : 123456MonPasse)";
  totp_format_only = "Code TOTP seul (Ex. : 123456)";
  live_totp_label = "OTP Authenticator en direct :";
  active_otp_badge = "OTP Actif";
  dynamic_prompt_hint =
      "💡 Lors de la connexion, VPNHub affichera une boîte de dialogue 2FA rapide pour saisir votre code OTP.";
  tls_summary_title = "Sécurité TLS & Certificats";
  tls_summary_desc = "CA racine, clés de canal TLS et authentification par certificat client";
  btn_config_security = "Configurer la sécurité";
  btn_setup_certificates = "Installer les certificats";
  badge_custom_ca = "✓ CA Racine personnalisé";
  badge_system_ca = "CA Racine système";
  badge_tls_crypt = "✓ TLS-Crypt activé";
  badge_tls_auth = "✓ TLS-Auth (Dir: {direction})";
  badge_standard_tls = "Négociation TLS standard";
  badge_client_cert_key = "✓ Certificat & Clé Client";
  badge_user_pass_auth = "Auth Utilisateur/Pass";
  badge_server_verify = "Vérification serveur (Active)";
  btn_save_changes = "Enregistrer les modifications";
  btn_create_profile = "Créer le profil";
}

-- ===== src/I18n/Fr/Options.antt =====
-- packages/app/src/i18n/locales/fr.ts: the texts of the settings and of split tunnelling in French.
use vpnhub.I18n.Dictionary.Options.{Settings, SplitTunnel}

unfoldable pub settings : Settings
settings = record {
  title = "Paramètres de l'application";
  subtitle =
      "Configurer le comportement du client, les préférences de démarrage, la langue et l'intégration";
  language_card_title = "Langue & Préférences régionales";
  language_select_label = "Langue d'affichage";
  language_select_desc = "Sélectionnez votre langue préférée pour l'interface VPNHub";
  desktop_behavior_title = "Comportement du bureau & de la fenêtre";
  launch_at_startup = "Lancer au démarrage du système";
  launch_at_startup_desc =
      "Démarre automatiquement VPNHub au démarrage de votre système d'exploitation";
  start_minimized = "Démarrer réduit dans la barre des tâches";
  start_minimized_desc = "Démarre discrètement en arrière-plan sans ouvrir la fenêtre principale";
  auto_connect_on_launch = "Connexion automatique au lancement";
  auto_connect_on_launch_desc =
      "Établit automatiquement la connexion à votre profil favori ou au dernier utilisé";
  minimize_to_tray_on_close = "Réduire dans la barre des tâches à la fermeture";
  minimize_to_tray_on_close_desc =
      "La fermeture de la fenêtre la masque dans la barre des tâches pour maintenir le tunnel actif";
  network_integration_title = "Réseau & Intégration système";
  auto_reconnect = "Reconnexion automatique lors du changement de réseau";
  auto_reconnect_desc =
      "Rétablit automatiquement le tunnel lorsque le Wi-Fi se reconnecte ou change d'interface";
  desktop_notifications = "Notifications système sur le bureau";
  desktop_notifications_desc =
      "Affiche des notifications système lors de la connexion, déconnexion et alertes";
  spotlight_title = "Palette de commandes rapides Spotlight";
  spotlight_desc = "Ouvrez le sélecteur de profils et la palette de navigation avec le raccourci";
  spotlight_button = "Ouvrir (⌘K)";
  diagnostics_title = "Diagnostics du cœur & Coffre-fort chiffré";
  engine_status = "État du moteur : Haute intégrité";
  cipher_suite_title = "Suite cryptographique";
  cipher_suite_desc = "ChaCha20-Poly1305 / AES-GCM + Post-Quantique ML-KEM";
  ipc_daemon_title = "Démon IPC";
  ipc_daemon_desc = "Socket de domaine Unix • Latence : {latency}ms";
  encrypted_vault_title = "Coffre-fort chiffré";
  encrypted_vault_desc = "Clé matérielle AES-256-GCM avec effacement sécurisé en mémoire (Zeroize)";
  client_version_text = "Client VPNHub v0.1.2";
  reset_defaults = "Rétablir les paramètres par défaut";
  settings_restored_title = "Paramètres réinitialisés";
  settings_restored_msg =
      "Les paramètres de l'application ont été restaurés à leurs valeurs par défaut.";
  docs_and_github = "Documentation & GitHub";
  core_ready = "v{version} Prêt";
  core_offline = "Hors ligne";
  vault_aes = "Coffre-fort : AES-256-GCM";
}

unfoldable pub split_tunnel : SplitTunnel
split_tunnel = record {
  title = "Gestionnaire de Split Tunneling";
  subtitle =
      "Définissez précisément quelles applications, sous-réseaux CIDR et domaines transitent par le VPN ou internet";
  tab_apps = "Règles d'applications";
  tab_ip_domain = "Sous-réseaux IP & Domaines";
  apps_section_title = "Règles spécifiques aux applications";
  apps_section_desc =
      "Les paquets émis par les exécutables spécifiés suivront la politique de routage dédiée";
  btn_add_app_rule = "Ajouter une règle d'application";
  col_status = "Statut";
  col_app = "Application";
  col_path = "Chemin de l'exécutable";
  col_policy = "Politique";
  col_actions = "Actions";
  route_vpn_badge = "Routé via VPN";
  bypass_badge = "Contournement VPN (Direct)";
  add_ip_section_title = "Ajouter un sous-réseau CIDR ou domaine";
  target_label = "CIDR cible / Masque de domaine (*.domaine)";
  target_placeholder = "10.0.0.0/8 ou *.corp.domaine.com";
  type_label = "Type";
  type_cidr = "Sous-réseau IPv4/IPv6 CIDR";
  type_domain = "Masque de domaine";
  policy_label = "Mode de routage";
  policy_route_vpn = "Routé via VPN";
  policy_bypass = "Contournement VPN (Direct)";
  desc_label = "Description / Usage";
  desc_placeholder = "Ex. : VPC AWS Staging";
  btn_add_rule = "Ajouter";
  col_target = "Destination cible";
  col_type = "Type";
  col_desc = "Description";
}

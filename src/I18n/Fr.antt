-- ===== src/I18n/Fr.antt =====
-- packages/app/src/i18n/locales/fr.ts: the texts in French.
pub mod Dialogs
pub mod Options
use vpnhub.I18n.Dictionary.{
  Common, Nav, Titlebar, StatusBar, Dashboard, Profiles, Security, Logs, TranslationDictionary,
}
use vpnhub.I18n.Fr.Dialogs.{modals}
use vpnhub.I18n.Fr.Options.{settings, split_tunnel}

unfoldable pub common : Common
common = record {
  save = "Enregistrer";
  cancel = "Annuler";
  delete = "Supprimer";
  edit = "Modifier";
  close = "Fermer";
  copy = "Copier";
  copied = "Copié !";
  open_label = "Ouvrir";
  back = "Retour";
  search = "Rechercher";
  filter = "Filtrer";
  reset = "Réinitialiser";
  enable = "Activer";
  disable = "Désactiver";
  active = "Actif";
  ready = "Prêt";
  offline = "Hors ligne";
  connected = "Connecté";
  connecting = "Connexion en cours";
  reconnecting = "Reconnexion...";
  disconnecting = "Déconnexion...";
  disconnected = "Déconnecté";
  error = "Erreur";
  none = "Aucun";
  loading = "Chargement...";
  all = "Tous";
  success = "Succès";
  warning = "Avertissement";
  username = "Nom d'utilisateur";
  password = "Mot de passe";
  or = "OU";
  coming_soon = "Bientôt disponible";
  actions = "Actions";
  location = "Emplacement";
  isp = "FAI (Fournisseur)";
  vpn_profiles = "PROFILS VPN";
  commands = "COMMANDES & NAVIGATION";
  status_label = "Statut";
  type = "Type";
  policy = "Politique";
  target = "Destination";
}

unfoldable pub nav : Nav
nav = record {
  menu = "Menu";
  dashboard = "Tableau de bord";
  profiles = "Bibliothèque de profils";
  security = "Sécurité & Protection";
  logs = "Console en direct";
  settings = "Paramètres";
  support_and_docs = "Support & Documentation";
  collapse_sidebar = "Réduire la barre latérale (Ctrl+B)";
  expand_sidebar = "Agrandir la barre latérale (Ctrl+B)";
  core_title = "Cœur VPNHub";
  daemon_status = "Démon";
}

unfoldable pub titlebar : Titlebar
titlebar = record {
  search_placeholder = "Rechercher des profils, commandes...";
  active = "Actif";
  reconnecting = "Reconnexion";
  offline = "Hors ligne";
  search_shortcut = "⌘K";
}

unfoldable pub status_bar : StatusBar
status_bar = record {
  kill_switch_strict = "Kill Switch: APPLICATION STRICTE";
  kill_switch_auto = "Kill Switch: DÉCONNEXION AUTO";
  kill_switch_off = "Kill Switch: DÉSACTIVÉ";
  ipv6_blocked = "BLOQUÉ";
  ipv6_pass = "PASSANT";
  dns_secured = "SÉCURISÉ";
}

unfoldable pub dashboard : Dashboard
dashboard = record {
  hero_title_connected = "Protégé & Connecté";
  hero_title_disconnected = "Déconnecté & Non protégé";
  hero_title_connecting = "Établissement du tunnel sécurisé...";
  click_to_disconnect = "Cliquer pour déconnecter";
  click_to_connect = "Cliquer pour connecter";
  select_profile_prompt = "Sélectionnez un profil ci-dessous pour vous connecter";
  status_secured = "Sécurisé";
  status_unprotected = "Non protégé";
  public_ip = "IP Publique";
  virtual_ip = "IP Virtuelle";
  gateway = "Passerelle";
  latency = "Latence";
  uptime = "Temps d'activité";
  download_speed = "Téléchargement";
  upload_speed = "Téléversement";
  total_traffic = "Trafic total";
  quick_switch_title = "Changement rapide de profil";
  manage_all = "Gérer tous les profils";
  live_log_stream_title = "Activité en direct & Télémétrie";
  clear_stream = "Effacer le flux";
  no_active_tunnel = "Aucun tunnel actif connecté";
  daemon_offline = "DÉMON HORS LIGNE";
  retry_ipc = "Réessayer ↺";
  live_ping = "Latence";
  active_rules = "Règles actives";
}

unfoldable pub profiles : Profiles
profiles = record {
  title = "Bibliothèque de profils";
  subtitle = "Gérer les configurations de serveurs WireGuard et OpenVPN";
  add_profile = "Nouveau profil";
  import_ovpn = "Importer .ovpn";
  search_placeholder = "Rechercher par nom, pays ou tag...";
  all_protocols = "Tous les protocoles";
  all_tags = "Tous les tags";
  favorites_only = "Favoris uniquement";
  no_profiles_found = "Aucun profil VPN trouvé";
  create_prompt = "Ajoutez ou importez un profil pour commencer";
  server_host = "Hôte du serveur";
  server_port = "Port";
  protocol = "Protocole";
  status = "État";
  last_connected = "Dernière connexion";
  never = "Jamais";
  connect = "Connecter";
  disconnect = "Déconnecter";
  delete_confirm = "Êtes-vous sûr de vouloir supprimer ce profil ?";
}

unfoldable pub security : Security
security = record {
  title = "Centre de Sécurité & Protection";
  subtitle = "Configurer les boucliers pare-feu, le kill switch et l'accès réseau local";
  kill_switch_title = "Kill Switch Internet (Application du pare-feu)";
  kill_switch_desc =
      "Bloque tout le trafic non chiffré si le VPN se déconnecte pour éviter les fuites";
  kill_switch_enforced = "APPLIQUÉ";
  kill_switch_off = "DÉSACTIVÉ";
  ipv6_title = "Bouclier anti-fuite IPv6";
  ipv6_desc = "Redirige le trafic IPv6 vers un trou noir pour éviter les fuites hors du tunnel";
  ipv6_protected = "Protégé";
  webrtc_title = "Bouclier WebRTC STUN";
  webrtc_desc = "Empêche les navigateurs de divulguer votre véritable adresse IP via STUN";
  webrtc_protected = "Protégé";
  lan_bypass_title = "Accès réseau local (LAN Bypass)";
  lan_bypass_desc = "Autorise l'accès aux appareils locaux (imprimantes, NAS, routeur)";
  lan_bypass_active = "Actif";
  dns_leak_test_title = "Vérification des fuites DNS";
  dns_leak_test_desc = "Exécute un diagnostic automatisé des fuites DNS";
  run_dns_test = "Tester les fuites";
}

unfoldable pub logs : Logs
logs = record {
  title = "Console en direct & Journaux de diagnostic";
  subtitle = "Événements du moteur en temps réel et journaux de diagnostic";
  search_placeholder = "Rechercher par mot-clé, cible ou message d'erreur...";
  clear_logs = "Effacer les logs";
  copy_all = "Tout copier";
  auto_scroll = "Défilement auto";
  filter_all = "TOUS";
  filter_info = "INFO";
  filter_warn = "AVERT.";
  filter_error = "ERREUR";
  filter_debug = "DEBUG";
  no_logs_message = "Aucun événement enregistré pour le moment";
  export_diagnostics = "Exporter les logs";
}

abbrev pub fr : TranslationDictionary
fr = record {
  common = common;
  nav = nav;
  titlebar = titlebar;
  status_bar = status_bar;
  dashboard = dashboard;
  profiles = profiles;
  security = security;
  logs = logs;
  settings = settings;
  split_tunnel = split_tunnel;
  modals = modals;
}

-- ===== src/Views/Import/Remote.antt =====
-- The line of an OpenVPN file that names the server.
use Prim.Native.Char.{Char, code}
use vpnhub.Prelude.{
  ℕ, ◌≡◌, refl, ap, ◌∙◌, String, ◌<>◌, Bool, true, false, Option, some, List, [], ◌∷◌, codes, All,
  get_or, arith,
}
use vpnhub.Prelude.Decimal.{codes-append}
use vpnhub.Totp.{is_space}
use vpnhub.Types.{ProtocolType}
use vpnhub.Views.Text.{lower, includes, starts_with}
use vpnhub.Views.Trim.{trim, trim-unspaced}
use vpnhub.Views.Import.Regex.{Regex, Match, consume, onto, match_here, match_one, find_in_lines}
use vpnhub.Views.Import.Patterns.{
  word, some_spaces, group, is_digit, is_word, is_blank, directive, optional_port, optional_proto,
  proto, remote,
}
use vpnhub.Views.Import.Words.{prepend, word-here, word-none}
use vpnhub.Views.Import.Runs.{IsRun, match_many-stop, group-run, find_in_lines-skip}
use vpnhub.Views.Import.Config.{
  group as group_of, trimmed, parsed_or, protocol_or, openvpn_protocol, parse_int, parse_openvpn,
}

pub data Transport : Type 0 where
  tcp udp : Transport

abbrev pub transport_text : Transport → String
transport_text Transport.tcp = "tcp"
transport_text Transport.udp = "udp"

-- What is behind the space in front of a run.
spaced-run :
    (r : Regex) (c : Char) (w s : String)
    → is_space (code c) ≡ false
    → match_here (some_spaces r) (String.◌∷◌ " " (String.◌∷◌ c w <> s))
      ≡ onto (consume " ") (match_here r (String.◌∷◌ c w <> s))
unfolding match_here match_one is_space
spaced-run r c w s h = ap (onto (consume " ")) (match_many-stop is_space (match_here r) c w s h)

abbrev transports : Regex
transports =
    Regex.start
      (Regex.either (word "tcp" (Regex.stop Regex.finish)) (word "udp" (Regex.stop Regex.finish)))

not-tcp : (s : String) → starts_with (lower "tcp") (lower ("udp" <> s)) ≡ false
unfolding starts_with
not-tcp s = rw (codes-append "udp" s) refl

transports-here :
    (p : Transport) (s : String)
    → match_here transports (transport_text p <> s) ≡ some ("", some (transport_text p) ∷ [])
unfolding match_here
transports-here Transport.tcp s = rw (word-here "tcp" (Regex.stop Regex.finish) s) refl
transports-here Transport.udp s =
    rw
      (
        word-none "tcp" (Regex.stop Regex.finish) ("udp" <> s) (not-tcp s),
        word-here "udp" (Regex.stop Regex.finish) s,
      )
      refl

-- Behind a space.
spaced-transport :
    (p : Transport) (s : String)
    → match_here (some_spaces transports) (String.◌∷◌ " " (transport_text p <> s))
      ≡ some (" ", some (transport_text p) ∷ [])
unfolding is_space
spaced-transport Transport.tcp s =
    spaced-run transports "t" "cp" s refl
    ∙ ap (onto (consume " ")) (transports-here Transport.tcp s)
spaced-transport Transport.udp s =
    spaced-run transports "u" "dp" s refl
    ∙ ap (onto (consume " ")) (transports-here Transport.udp s)

either-left :
    (a b : Regex) (s : String) (m : Match)
    → match_here a s ≡ some m
    → match_here (Regex.either a b) s ≡ some m
unfolding match_here
either-left a b s m h = rw h refl

-- A run behind a space, and a match behind the run.
spaced-group :
    (p : ℕ → Bool) (r : Regex) (w s x : String) (d : Char) (groups : List (Option String))
    → ((c : ℕ) → p c ≡ true → is_space c ≡ false)
    → IsRun p w
    → p (code d) ≡ false
    → match_here r (String.◌∷◌ d s) ≡ some (x, groups)
    → match_here (some_spaces (group p r)) (String.◌∷◌ " " (w <> String.◌∷◌ d s))
      ≡ some (" ", some w ∷ groups)
spaced-group p r String.[] s x d groups apart h k e = elim h [ ]
spaced-group p r (String.◌∷◌ c w) s x d groups apart (h, hs) k e =
    spaced-run (group p r) c w (String.◌∷◌ d s) (apart (code c) h)
    ∙ ap (onto (consume " ")) (group-run p r (String.◌∷◌ c w) s d x groups (h, hs) k e)

-- `remote host port proto`, with the text behind it.
abbrev pub remote_line : String → String → Transport → String → String
remote_line host port p t =
    "remote"
    <> String.◌∷◌ " "
        (host <> String.◌∷◌ " " (port <> String.◌∷◌ " " (transport_text p <> String.◌∷◌ "\n" t)))

is_digit-apart : (c : ℕ) → is_digit c ≡ true → is_space c ≡ false
unfolding is_space
is_digit-apart c h = ground (arith, h)

is_word-apart : (c : ℕ) → is_word c ≡ true → is_space c ≡ false
is_word-apart c h = ground (arith, h)

directive-here :
    (r : Regex) (s : String)
    → match_here (directive "remote" r) ("remote" <> s) ≡ onto (prepend "remote") (match_here r s)
unfolding match_here
directive-here r s =
    match_many-stop is_blank (match_here (word "remote" r)) "r" "emote" s refl
    ∙ word-here "remote" r s

remote-here :
    (host port : String) (p : Transport) (t : String)
    → IsRun is_word host
    → IsRun is_digit port
    → match_here remote (remote_line host port p t)
      ≡ some ("remote ", some host ∷ some port ∷ some (transport_text p) ∷ [])
unfolding remote is_space
remote-here host port p t h k =
    let proto_part =
      either-left (some_spaces transports) (Regex.skip Regex.finish) _ _
        (spaced-transport p (String.◌∷◌ "\n" t)) in
    let port_part =
      either-left (some_spaces (group is_digit (optional_proto Regex.finish)))
        (Regex.skip (optional_proto Regex.finish)) _ _
        (spaced-group is_digit (optional_proto Regex.finish) port _ " " " " _ is_digit-apart k refl
          proto_part) in
    let host_part =
      spaced-group is_word (optional_port (optional_proto Regex.finish)) host _ " " " " _
        is_word-apart h refl port_part in
    directive-here _ _ ∙ ap (onto (prepend "remote")) host_part

find_in_lines-here :
    (r : Regex) (s : String) (m : Match) → match_here r s ≡ some m → find_in_lines r true s ≡ some m
unfolding find_in_lines
find_in_lines-here r String.[] m h = h
find_in_lines-here r (String.◌∷◌ c s) m h = rw h refl

abbrev pub protocol_of : Transport → ProtocolType
protocol_of Transport.tcp = ProtocolType.openvpn_tcp
protocol_of Transport.udp = ProtocolType.openvpn_udp

remote-found :
    (before host port : String) (p : Transport) (t : String)
    → includes (lower "remote") (lower before) ≡ false
    → IsRun is_word host
    → IsRun is_digit port
    → find_in_lines remote true (before <> String.◌∷◌ "\n" (remote_line host port p t))
      ≡ some ("remote ", some host ∷ some port ∷ some (transport_text p) ∷ [])
unfolding remote
remote-found before host port p t first h k =
    let line = remote_line host port p t in
    find_in_lines-skip "remote" _ true before line
      (refl, (refl, (refl, (refl, (refl, (refl, tt)))))) first
    ∙ find_in_lines-here remote line _ (remote-here host port p t h k)

unspaced :
    (w : String) → All (λ c. is_word c ≡ true) (codes w) → All (λ c. is_space c ≡ false) (codes w)
unspaced String.[] h = tt
unspaced (String.◌∷◌ c w) (h, hs) = (is_word-apart (code c) h, unspaced w hs)

trim-run : (w : String) → IsRun is_word w → trim w ≡ w
trim-run String.[] h = elim h [ ]
trim-run (String.◌∷◌ c w) h = trim-unspaced (String.◌∷◌ c w) (unspaced (String.◌∷◌ c w) h)

openvpn_protocol-transport : (p : Transport) → openvpn_protocol (transport_text p) ≡ protocol_of p
unfolding starts_with
openvpn_protocol-transport Transport.tcp = refl
openvpn_protocol-transport Transport.udp = refl

-- An OpenVPN file with a line for the server, of which no earlier line has the keyword: the import takes
-- the host, the port and the protocol from this line, whatever the rest of the file says.
pub parse_openvpn-remote :
    (before host port : String) (p : Transport) (t : String)
    → includes (lower "remote") (lower before) ≡ false
    → IsRun is_word host
    → IsRun is_digit port
    → let v = parse_openvpn (before <> String.◌∷◌ "\n" (remote_line host port p t)) in
      (v.server_host ≡ host) × (v.server_port ≡ parse_int port) × (v.protocol ≡ protocol_of p)
unfolding parse_openvpn
parse_openvpn-remote before host port p t first h k =
    let found = remote-found before host port p t first h k in
    let content = before <> String.◌∷◌ "\n" (remote_line host port p t) in
    let before_it =
      protocol_or (group_of 0 (find_in_lines proto true content)) ProtocolType.openvpn_udp in
    (
      ap (λ m. get_or (trimmed (group_of 0 m)) "") found ∙ trim-run host h,
      ap (λ m. parsed_or (group_of 1 m) 1194) found,
      ap (λ m. protocol_or (group_of 2 m) before_it) found ∙ openvpn_protocol-transport p,
    )

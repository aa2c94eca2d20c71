-- ===== src/Views/Import/Patterns.antt =====
-- The expressions of `parseConfigContent`, one by one. All of them ignore letter case.
use Prim.Native.Char.{code}
use vpnhub.Prelude.{ℕ, String, Bool, true, not, ◌&&◌, ◌||◌, ◌==◌, leb}
use vpnhub.Totp.{is_space}
use vpnhub.Views.Text.{to_lower}
use vpnhub.Views.Import.Regex.{Regex}

abbrev pub is_letter : ℕ → ℕ → Bool
is_letter a c = to_lower a == to_lower c

unfoldable pub word : String → Regex → Regex
word String.[] r = r
word (String.◌∷◌ c s) r = Regex.one (is_letter (code c)) (word s r)

-- `\s*`, `\s+` and `[ \t]*`
abbrev pub spaces : Regex → Regex
spaces = Regex.many is_space

abbrev pub some_spaces : Regex → Regex
some_spaces r = Regex.one is_space (spaces r)

abbrev pub is_blank : ℕ → Bool
is_blank c = c == 32 || c == 9

abbrev blanks : Regex → Regex
blanks = Regex.many is_blank

-- `(c+)`
abbrev pub group : (ℕ → Bool) → Regex → Regex
group p r = Regex.start (Regex.one p (Regex.many p (Regex.stop r)))

abbrev pub is_digit : ℕ → Bool
is_digit c = leb b'0' c && leb c b'9'

abbrev pub is_value : ℕ → Bool
is_value c = not (is_space c || c == b'#')

abbrev is_address : ℕ → Bool
is_address c = not (c == 13 || c == 10 || c == b',' || c == b'#')

abbrev is_host : ℕ → Bool
is_host c = not (c == b':' || is_space c || c == b'#')

abbrev pub is_word : ℕ → Bool
is_word c = not (is_space c)

abbrev is_in_line : ℕ → Bool
is_in_line c = not (c == 13 || c == 10)

-- `key\s*=\s*` and what follows
abbrev pub setting : String → Regex → Regex
setting key r = word key (spaces (Regex.one (λ c. c == b'=') (spaces r)))

unfoldable pub private_key : Regex
unfolding word
private_key = setting "PrivateKey" (group is_value Regex.finish)

unfoldable pub preshared_key : Regex
unfolding word
preshared_key = setting "PresharedKey" (group is_value Regex.finish)

unfoldable pub address : Regex
unfolding word
address = setting "Address" (group is_address Regex.finish)

unfoldable pub endpoint : Regex
unfolding word
endpoint = setting "Endpoint" (
    group is_host (
      Regex.either (Regex.one (λ c. c == b':') (group is_digit Regex.finish))
        (Regex.skip Regex.finish)))

-- `^[ \t]*key` and what follows, at the start of a line
abbrev pub directive : String → Regex → Regex
directive key r = blanks (word key r)

abbrev stopped : Regex
stopped = Regex.stop Regex.finish

unfoldable pub proto : Regex
unfolding word
proto = directive "proto" (
    some_spaces (
      Regex.start (
        Regex.either (word "tcp" (Regex.many is_digit stopped)) (
          Regex.either (word "udp" (Regex.many is_digit stopped))
            (Regex.either (word "tcp" stopped) (word "udp" stopped))))))

-- `(?:\s+(\d+))?` and `(?:\s+(tcp|udp))?`
abbrev pub optional_port : Regex → Regex
optional_port r = Regex.either (some_spaces (group is_digit r)) (Regex.skip r)

abbrev pub optional_proto : Regex → Regex
optional_proto r =
    Regex.either
      (some_spaces
        (Regex.start (Regex.either (word "tcp" (Regex.stop r)) (word "udp" (Regex.stop r)))))
      (Regex.skip r)

unfoldable pub remote : Regex
unfolding word
remote =
    directive "remote" (some_spaces (group is_word (optional_port (optional_proto Regex.finish))))

unfoldable pub ifconfig : Regex
unfolding word
ifconfig = directive "ifconfig" (some_spaces (group is_word Regex.finish))

unfoldable pub auth_user_pass : Regex
unfolding word
auth_user_pass = directive "auth-user-pass" Regex.finish

unfoldable pub user_comment : Regex
unfolding word
user_comment =
    let value =
      spaces (Regex.one (λ c. c == b':' || c == b'=') (spaces (group is_in_line Regex.finish))) in
    blanks (
      Regex.one (λ c. c == b'#')
        (spaces (Regex.either (word "username" value) (word "user" value))))

unfoldable pub key_direction : Regex
unfolding word
key_direction = directive "key-direction" (some_spaces (group is_word Regex.finish))

unfoldable pub remote_cert_tls : Regex
unfolding word
remote_cert_tls = directive "remote-cert-tls" (some_spaces (word "server" Regex.finish))

unfoldable pub reneg_sec : Regex
unfolding word
reneg_sec = directive "reneg-sec" (some_spaces (group is_digit Regex.finish))

-- `open([\s\S]*?)close`
unfoldable pub block : String → String → Regex
unfolding word
block opening closing =
    word opening (Regex.start (Regex.lazy (λ c. true) (Regex.stop (word closing Regex.finish))))

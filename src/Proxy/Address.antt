-- ===== src/Proxy/Address.antt =====
-- ParseIP2, ParseIP3 and ParseIPNew of proxy/server.go, with the regular expressions that they
-- search a text for. What they accept and return is in the child modules.
pub mod Regexp
pub mod Decimal
pub mod Dotted
pub mod Parsed
pub mod Inverted
pub mod Accepted
pub mod Refused
pub mod Printed
use cloudlab_k8s.Prelude.{
  ℕ, Bool, ◌&&◌, ◌||◌, List, [], ◌∷◌, Option, none, some, String, ℤ, pos, negsuc, ◌≡◌, refl, leb,
  nat_beq,
}
use cloudlab_k8s.Proxy.Types.{Ip, Net, nil_ip, status_ok, bad_request}
use cloudlab_k8s.Proxy.Address.Regexp.{Pattern, one, plus, seq, group, find_string_submatch}
use cloudlab_k8s.Proxy.Address.Decimal.{is_digit, parse_int32}

abbrev pub is_char : ℕ → ℕ → Bool
is_char = nat_beq

-- `[-a-zA-Z0-9_]`
abbrev pub is_word : ℕ → Bool
is_word c =
    is_char b'-' c
    || (leb b'a' c && leb c b'z')
    || (leb b'A' c && leb c b'Z')
    || is_digit c
    || is_char b'_' c

-- `\d+`
abbrev pub run : Pattern
run = plus is_digit

-- The character, and the expression.
abbrev pub char_then : ℕ → Pattern → Pattern
char_then k r = seq (one (is_char k)) r

-- `\d+\.\d+\.\d+\.\d+`
abbrev pub dotted : Pattern
dotted = seq run (char_then b'.' (seq run (char_then b'.' (seq run (char_then b'.' run)))))

-- `(\d+\.\d+\.\d+\.\d+):(\d+)-(\d+)`
abbrev pub ip_range_match : Pattern
ip_range_match = seq (group dotted) (char_then b':' (seq (group run) (char_then b'-' (group run))))

-- `(\d+\.\d+\.\d+\.\d+):(\d+)`
abbrev pub ip_port_match : Pattern
ip_port_match = seq (group dotted) (char_then b':' (group run))

-- `'\]`
abbrev pub closing : Pattern
closing = char_then b'\'' (one (is_char b']'))

-- `\['([-a-zA-Z0-9_]+)'\]`
abbrev pub pid_match : Pattern
pid_match = char_then b'[' (char_then b'\'' (seq (group (plus is_word)) closing))

abbrev pub minus_one : ℤ
minus_one = negsuc 0

-- The address, the two ports and the status.
abbrev pub Parsed : Type 0
Parsed = String × ℤ × ℤ × ℕ

abbrev pub one_port : String → Option ℤ → Parsed
one_port ip none = ("", pos 0, pos 0, bad_request)
one_port ip (some p1) = (ip, p1, minus_one, status_ok)

abbrev two_ports : String → Option ℤ → Option ℤ → Parsed
two_ports ip none rport = ("", pos 0, pos 0, bad_request)
two_ports ip (some p1) none = ("", pos 0, pos 0, bad_request)
two_ports ip (some p1) (some p2) = (ip, p1, p2, status_ok)

-- The three matches of the expression, or the wrong number of them.
unfoldable pub port_of : List String → Parsed
port_of (all ∷ ip ∷ port ∷ []) = one_port ip (parse_int32 port)
port_of other = ("", minus_one, minus_one, bad_request)

unfoldable pub parse_ip2 : String → Parsed
unfolding port_of
parse_ip2 msg = port_of (find_string_submatch ip_port_match msg)

-- The four matches of the expression, or the other parser's answer.
unfoldable pub ports_of : Parsed → List String → Parsed
ports_of other (all ∷ ip ∷ lport ∷ rport ∷ []) =
    two_ports ip (parse_int32 lport) (parse_int32 rport)
ports_of other matched = other

unfoldable pub parse_ip3 : String → Parsed
unfolding ports_of
parse_ip3 msg = ports_of (parse_ip2 msg) (find_string_submatch ip_range_match msg)

unfoldable pub parse_ip_new : Net → String → Ip × ℤ × ℤ × ℕ
parse_ip_new net msg =
    let (ipstr, p1, p2, status) = parse_ip3 msg in
    elim (net.parse_ip ipstr) [
      | none ↦ (nil_ip, minus_one, minus_one, bad_request)
      | some ip ↦ (ip, p1, p2, status)
    ]

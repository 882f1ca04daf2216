-- ===== src/Tests/Address.antt =====
-- The theorems on addresses and on ids in responses, at short texts.
use Prim.Native.Char.{Char}
use Prim.Native.String.{◌++◌ as ◌+++◌}
use mathlib.Core.List.{cons-ne-nil}
use cloudlab_k8s.Prelude.{◌≡◌, refl, ◌⊎◌, inl, ◌↔◌, List, ◌∷◌, ◌++◌, ◌<◌, ◌^◌, pos, negsuc, some}
use cloudlab_k8s.Proxy.Types.{status_ok, bad_request}
use cloudlab_k8s.Proxy.Address.Regexp.{chars, find_string_submatch}
use cloudlab_k8s.Proxy.Address.Decimal.{value, parse_int32}
use cloudlab_k8s.Proxy.Address.{minus_one, parse_ip2, parse_ip3}
use cloudlab_k8s.Proxy.Address.Dotted.{
  dash, dotted-Spells, IsDotted, IsNumber, IsRun, NoDigit, EndsNumber,
}
use cloudlab_k8s.Proxy.Address.Parsed.{parse_ip3-range}
use cloudlab_k8s.Proxy.Address.Accepted.{Reads, parse_ip3-Reads}
use cloudlab_k8s.Proxy.Address.Refused.{HasNoAddress, parse_ip2-HasNoAddress}
use cloudlab_k8s.Proxy.Fmt.{sprint_int, sscan_ports}
use cloudlab_k8s.Proxy.Safeutils.{HttpResponse, principal_id, get_principal_id}
use cloudlab_k8s.Proxy.Safeutils.Quoted.{IsWord, NoBracket, get_principal_id-quoted}

ten-IsNumber : IsNumber "10"
unfolding chars
ten-IsNumber = (cons-ne-nil _ _, (refl, (refl, tt)))

zero-IsNumber : IsNumber "0"
unfolding chars
zero-IsNumber = (cons-ne-nil _ _, (refl, tt))

two-IsNumber : IsNumber "2"
unfolding chars
two-IsNumber = (cons-ne-nil _ _, (refl, tt))

pub low-IsNumber : IsNumber "100"
unfolding chars
low-IsNumber = (cons-ne-nil _ _, (refl, (refl, (refl, tt))))

pub high-IsNumber : IsNumber "200"
unfolding chars
high-IsNumber = (cons-ne-nil _ _, (refl, (refl, (refl, tt))))

ip-IsDotted : IsDotted "10.0.0.2"
unfolding chars
ip-IsDotted =
    dotted-Spells (chars "10") (chars "0") (chars "0") (chars "2") ten-IsNumber zero-IsNumber
      zero-IsNumber two-IsNumber

one-IsNumber : IsNumber "1"
unfolding chars
one-IsNumber = (cons-ne-nil _ _, (refl, tt))

pub host_a-IsDotted : IsDotted "10.0.0.1"
unfolding chars
host_a-IsDotted =
    dotted-Spells (chars "10") (chars "0") (chars "0") (chars "1") ten-IsNumber zero-IsNumber
      zero-IsNumber one-IsNumber

before-NoDigit : NoDigit "at "
unfolding chars
before-NoDigit = (refl, (refl, (refl, tt)))

after-EndsNumber : EndsNumber "/tcp"
unfolding chars
after-EndsNumber = refl

parse_ip3-range_example :
    parse_ip3 ("at " +++ ("10.0.0.2" +++ (":" +++ ("100" +++ ("-" +++ ("200" +++ "/tcp"))))))
    ≡ ("10.0.0.2", pos 100, pos 200, status_ok)
unfolding chars
parse_ip3-range_example =
    parse_ip3-range "at " "10.0.0.2" "100" "200" "/tcp" ip-IsDotted low-IsNumber high-IsNumber
      before-NoDigit after-EndsNumber

range_read : parse_ip3 "at 10.0.0.2:100-200/tcp" ≡ ("10.0.0.2", pos 100, pos 200, status_ok)
unfolding parse_ip3 find_string_submatch parse_int32
range_read = refl

parse_ip3-Reads_example :
    (tail : List Char) × Reads "at 10.0.0.2:100-200/tcp" "10.0.0.2" (pos 100) tail
    × ((pos 200 ≡ minus_one)
        ⊎ ((r : List Char) × (after : List Char) × IsRun r
            × (value r < 2 ^ 31)
            × (pos 200 ≡ pos (value r))
            × (tail ≡ dash ∷ (r ++ after))))
parse_ip3-Reads_example =
    parse_ip3-Reads "at 10.0.0.2:100-200/tcp" "10.0.0.2" (pos 100) (pos 200) range_read

parse_ip2-HasNoAddress_example :
    (parse_ip2 "10.0.0:80" ≡ ("", minus_one, minus_one, bad_request)) ↔ HasNoAddress "10.0.0:80"
parse_ip2-HasNoAddress_example = parse_ip2-HasNoAddress "10.0.0:80"

id-IsWord : IsWord "vm-1"
unfolding chars
id-IsWord = (cons-ne-nil _ _, (refl, (refl, (refl, (refl, tt)))))

before-NoBracket : NoBracket "id: "
unfolding chars
before-NoBracket = (refl, (refl, (refl, (refl, tt))))

abbrev response : HttpResponse
response = record {
  status_code = status_ok;
  status = "200 OK";
  decoded = inl (record { message = "id: ['vm-1'] made" });
}

get_principal_id-quoted_example : get_principal_id response ≡ principal_id "vm-1"
get_principal_id-quoted_example =
    get_principal_id-quoted "200 OK" "id: " "vm-1" " made" id-IsWord before-NoBracket

range_alone : parse_ip3 "10.0.0.2:100-200" ≡ ("10.0.0.2", pos 100, pos 200, status_ok)
unfolding parse_ip3 find_string_submatch parse_int32
range_alone = refl

port_alone : parse_ip3 "see 10.0.0.2:80-x" ≡ ("10.0.0.2", pos 80, minus_one, status_ok)
unfolding parse_ip3 parse_ip2 find_string_submatch parse_int32
port_alone = refl

too_large : parse_ip3 "10.0.0.2:80-2147483648" ≡ ("", pos 0, pos 0, bad_request)
unfolding parse_ip3 find_string_submatch parse_int32
too_large = refl

port_printed : sprint_int (pos 19851) ≡ "19851"
unfolding sprint_int
port_printed = refl

ports_scanned : sscan_ports " 100:-20x" ≡ some (pos 100, negsuc 19)
unfolding sscan_ports
ports_scanned = refl

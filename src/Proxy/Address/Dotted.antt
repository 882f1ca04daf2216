-- ===== src/Proxy/Address/Dotted.antt =====
-- The addresses that the expressions of proxy/server.go spell, and that each expression's match is
-- settled by them.
use Prim.Native.Char.{Char, char, code}
use cloudlab_k8s.Prelude.{
  ℕ, true, false, not, List, [], ◌∷◌, ◌++◌, some, String, nat_beq_iff, ◌≡◌, refl, sym, ◌≢◌, arith,
}
use cloudlab_k8s.Proxy.Address.Regexp.{Pattern, one, seq, group, chars, find}
use cloudlab_k8s.Proxy.Address.Regexp.Spelled.{AllIn, Spells, seq-Spells, group-Spells}
use cloudlab_k8s.Proxy.Address.Regexp.Preferred.{Stops}
use cloudlab_k8s.Proxy.Address.Regexp.Settled.{
  Settled, Starts, taking_all, one-Ends, seq-Ends, one_then-Settled, plus-Settled, seq-Settled,
  group-Settled, plus-Starts, seq-Starts, group-Starts, find_after,
}
use cloudlab_k8s.Proxy.Address.Decimal.{is_digit, value}
use cloudlab_k8s.Proxy.Address.{is_char, run, char_then, dotted, ip_range_match, ip_port_match}

abbrev pub dot : Char
dot = char b'.' tt

abbrev pub colon : Char
colon = char b':' tt

abbrev pub dash : Char
dash = char b'-' tt

char-not_digit : (k : ℕ) → is_digit k ≡ false → (c : ℕ) → is_char k c ≡ true → is_digit c ≡ false
char-not_digit k e c h = ground arith

digit-not_char : (k : ℕ) → is_digit k ≡ false → (c : ℕ) → is_digit c ≡ true → is_char k c ≡ false
digit-not_char k e c h = ground arith

-- Digits, a character that is none, and more.
part-Settled :
    (k : ℕ) (q : Pattern)
    → is_digit k ≡ false
    → Settled is_digit q
    → Settled is_digit (seq (run) (char_then k q))
part-Settled k q e h =
    seq-Settled is_digit is_digit (run) (char_then k q) (plus-Settled is_digit)
      (seq-Ends is_digit (one (is_char k)) q (one-Ends is_digit (is_char k) (char-not_digit k e)))
      (one_then-Settled is_digit (is_char k) q h)

dotted-Settled : Settled is_digit dotted
dotted-Settled =
    part-Settled b'.' _ refl
      (part-Settled b'.' _ refl (part-Settled b'.' _ refl (plus-Settled is_digit)))

address_then-Settled :
    (q : Pattern) → Settled is_digit q → Settled is_digit (seq (group dotted) (char_then b':' q))
address_then-Settled q h =
    seq-Settled is_digit is_digit (group dotted) (char_then b':' q)
      (group-Settled is_digit dotted dotted-Settled)
      (seq-Ends is_digit (one (is_char b':')) q
        (one-Ends is_digit (is_char b':') (char-not_digit b':' refl)))
      (one_then-Settled is_digit (is_char b':') q h)

port-Settled : Settled is_digit (group (run))
port-Settled = group-Settled is_digit (run) (plus-Settled is_digit)

pub ip_port_match-Settled : Settled is_digit ip_port_match
ip_port_match-Settled = address_then-Settled (group run) port-Settled

pub ip_range_match-Settled : Settled is_digit ip_range_match
ip_range_match-Settled = address_then-Settled (seq (group run) (char_then b'-' (group run))) (
    seq-Settled is_digit is_digit (group run) (char_then b'-' (group run)) port-Settled
      (seq-Ends is_digit (one (is_char b'-')) (group run)
        (one-Ends is_digit (is_char b'-') (char-not_digit b'-' refl)))
      (one_then-Settled is_digit (is_char b'-') (group run) port-Settled))

dotted-Starts : Starts is_digit dotted
dotted-Starts =
    seq-Starts is_digit run
      (char_then b'.' (seq run (char_then b'.' (seq run (char_then b'.' run)))))
      (plus-Starts is_digit)

pub address-Starts : (q : Pattern) → Starts is_digit (seq (group dotted) q)
address-Starts q = seq-Starts is_digit (group dotted) q (group-Starts is_digit dotted dotted-Starts)

pub char_then-Spells :
    (k : ℕ) (q : Pattern) (c : Char) (b : List Char) (h : List (List Char))
    → code c ≡ k
    → Spells q b h
    → Spells (char_then k q) (c ∷ b) h
char_then-Spells k q c b h e s =
    seq-Spells (one (is_char k)) q (c ∷ []) b [] h
      (c, (nat_beq_iff k (code c)).1 (sym e), refl, refl) s

abbrev pub IsRun : List Char → Type 0
IsRun l = (l ≢ []) × AllIn is_digit l

run-dot-Spells :
    (q : Pattern) (a b : List Char)
    → IsRun a
    → Spells q b []
    → Spells (seq run (char_then b'.' q)) (a ++ (dot ∷ b)) []
run-dot-Spells q a b (n, h) s =
    seq-Spells run (char_then b'.' q) a (dot ∷ b) [] [] (n, h, refl)
      (char_then-Spells b'.' q dot b [] refl s)

-- Four parts of digits are an address.
pub dotted-Spells :
    (a b c d : List Char)
    → IsRun a
    → IsRun b
    → IsRun c
    → IsRun d
    → Spells dotted (a ++ (dot ∷ (b ++ (dot ∷ (c ++ (dot ∷ d)))))) []
dotted-Spells a b c d ha hb hc hd =
    let three = run-dot-Spells run c d hc (hd.0, hd.1, refl) in
    let two = run-dot-Spells (seq run (char_then b'.' run)) b (c ++ (dot ∷ d)) hb three in
    run-dot-Spells (seq run (char_then b'.' (seq run (char_then b'.' run)))) a
      (b ++ (dot ∷ (c ++ (dot ∷ d)))) ha two

-- An address in its dotted form, and the number of a port below 2^31.
abbrev pub IsDotted : String → Type 0
IsDotted ip = Spells dotted (chars ip) []

abbrev pub NoDigit : String → Type 0
NoDigit s = AllIn (λ c. not (is_digit c)) (chars s)

abbrev pub EndsNumber : String → Type 0
EndsNumber s = Stops is_digit (chars s)

abbrev pub IsNumber : String → Type 0
IsNumber l = IsRun (chars l)

abbrev pub number : String → ℕ
number s = value (chars s)

group_char-Spells :
    (r q : Pattern) (k : ℕ) (c : Char) (a b : List Char) (h : List (List Char))
    → code c ≡ k
    → Spells r a []
    → Spells q b h
    → Spells (seq (group r) (char_then k q)) (a ++ (c ∷ b)) (a ∷ h)
group_char-Spells r q k c a b h e sr sq =
    seq-Spells (group r) (char_then k q) a (c ∷ b) (a ∷ []) h (group-Spells r a [] sr)
      (char_then-Spells k q c b h e sq)

pub port_text :
    (ip l : List Char)
    → Spells dotted ip []
    → IsRun l
    → Spells ip_port_match (ip ++ (colon ∷ l)) (ip ∷ l ∷ [])
port_text ip l hi (n, h) =
    group_char-Spells dotted (group run) b':' colon ip l (l ∷ []) refl hi
      (group-Spells run l [] (n, h, refl))

pub range_text :
    (ip l r : List Char)
    → Spells dotted ip []
    → IsRun l
    → IsRun r
    → Spells ip_range_match (ip ++ (colon ∷ (l ++ (dash ∷ r)))) (ip ∷ l ∷ r ∷ [])
range_text ip l r hi (n, h) (m, k) =
    group_char-Spells dotted (seq (group run) (char_then b'-' (group run))) b':' colon ip
      (l ++ (dash ∷ r)) (l ∷ r ∷ []) refl hi
      (group_char-Spells run (group run) b'-' dash l r (r ∷ []) refl (n, h, refl)
        (group-Spells run r [] (m, k, refl)))

pub find_address :
    (r : Pattern) (before t after : List Char) (gs : List (List Char))
    → Starts is_digit r
    → Settled is_digit r
    → Spells r t gs
    → AllIn (λ c. not (is_digit c)) before
    → Stops is_digit after
    → find r (before ++ (t ++ after)) ≡ some (taking_all t gs after)
find_address r before t after gs starts settled spelled out stop =
    find_after is_digit r before (t ++ after) starts out (settled t gs after spelled stop)

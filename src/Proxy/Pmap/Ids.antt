-- ===== src/Proxy/Pmap/Ids.antt =====
-- ComputeID of proxy/pmap.go: how far an ID tells ranges apart.
use cloudlab_k8s.Prelude.{
  some-eq, ℕ, ◌+◌, ◌*◌, ◌^◌, ◌≤◌, ◌<◌, ◌≡◌, sym, ◌∙◌, Option-cases, inl, inr, none, some, arith,
  String, ℤ, pos,
}
use cloudlab_k8s.Proxy.Types.{Ip, Net}
use cloudlab_k8s.Proxy.Pmap.{big_endian, pack_id, compute_id}

-- The bytes of an address are bytes.
abbrev pub AreBytes : ℕ × ℕ × ℕ × ℕ → Type 0
AreBytes (a, b, c, d) = (a < 256) × (b < 256) × (c < 256) × (d < 256)

small_id :
    (v p q : ℕ)
    → v < 2 ^ 32
    → p < 65536
    → q < 65536
    → pack_id v (pos p) (pos q) ≡ (v * 65536 + p) * 65536 + q
small_id v p q h k l = omega arith

big_endian-lt : (v : ℕ × ℕ × ℕ × ℕ) → AreBytes v → big_endian v < 2 ^ 32
big_endian-lt (a, b, c, d) h = omega arith

compute_id_lem :
    (net : Net) (s : String) (ip : Ip) (v : ℕ × ℕ × ℕ × ℕ) (p q : ℤ)
    → net.parse_ip s ≡ some ip
    → net.to4 ip ≡ some v
    → compute_id net s p q ≡ some (pack_id (big_endian v) p q)
unfolding compute_id
compute_id_lem net s ip v p q h k = rw (h, k, compute_id)

-- For two IPv4 addresses with ranges of 16-bit ports, the ID determines the address's bytes as one
-- number and both ports. (`p2` is the range's end plus one, so a range up to port 65535 is outside
-- this.)
pub compute_id-injective :
    (net : Net) (s t : String) (a b : Ip) (v w : ℕ × ℕ × ℕ × ℕ) (p1 p2 q1 q2 : ℕ)
    → net.parse_ip s ≡ some a
    → net.to4 a ≡ some v
    → AreBytes v
    → net.parse_ip t ≡ some b
    → net.to4 b ≡ some w
    → AreBytes w
    → p1 < 65536
    → p2 < 65536
    → q1 < 65536
    → q2 < 65536
    → compute_id net s (pos p1) (pos p2) ≡ compute_id net t (pos q1) (pos q2)
    → (big_endian v ≡ big_endian w) × (p1 ≡ q1) × (p2 ≡ q2)
compute_id-injective net s t a b v w p1 p2 q1 q2 h k l h' k' l' x y z u e =
    let packed : pack_id (big_endian v) (pos p1) (pos p2)
        ≡ pack_id (big_endian w) (pos q1) (pos q2) =
      some-eq (
        sym (compute_id_lem net s a v (pos p1) (pos p2) h k)
        ∙ e
        ∙ compute_id_lem net t b w (pos q1) (pos q2) h' k') in
    digits (big_endian v) (big_endian w) p1 p2 q1 q2 (big_endian-lt v l) (big_endian-lt w l') x y z
      u packed
  where
    digits :
        (v w p1 p2 q1 q2 : ℕ)
        → v < 2 ^ 32
        → w < 2 ^ 32
        → p1 < 65536
        → p2 < 65536
        → q1 < 65536
        → q2 < 65536
        → pack_id v (pos p1) (pos p2) ≡ pack_id w (pos q1) (pos q2)
        → (v ≡ w) × (p1 ≡ q1) × (p2 ≡ q2)
    digits v w p1 p2 q1 q2 a b c d e f g = omega (arith, small_id v p1 p2, small_id w q1 q2)

-- Up to port 65535 itself: two ranges of one IPv4 address with one start and one ID have one end.
compute_id-end :
    (net : Net) (s : String) (ip : Ip) (v : ℕ × ℕ × ℕ × ℕ) (p q r : ℕ)
    → net.parse_ip s ≡ some ip
    → net.to4 ip ≡ some v
    → q ≤ 65536
    → r ≤ 65536
    → compute_id net s (pos p) (pos q) ≡ compute_id net s (pos p) (pos r)
    → q ≡ r
compute_id-end net s ip v p q r h k x y e =
    let packed : pack_id (big_endian v) (pos p) (pos q) ≡ pack_id (big_endian v) (pos p) (pos r) =
      some-eq (
        sym (compute_id_lem net s ip v (pos p) (pos q) h k)
        ∙ e
        ∙ compute_id_lem net s ip v (pos p) (pos r) h k) in
    omega arith

not_parsed :
    (net : Net) (s : String) (p q : ℤ) → net.parse_ip s ≡ none → compute_id net s p q ≡ none
unfolding compute_id
not_parsed net s p q h = rw (h, compute_id)

not_ipv4 :
    (net : Net) (s : String) (ip : Ip) (p q : ℤ)
    → net.parse_ip s ≡ some ip
    → net.to4 ip ≡ none
    → compute_id net s p q ≡ none
unfolding compute_id
not_ipv4 net s ip p q h k = rw (h, k, compute_id)

-- Whatever text has the ID: two ranges of one start and one ID have one end.
pub compute_id-one_end :
    (net : Net) (s : String) (p q r id : ℕ)
    → q ≤ 65536
    → r ≤ 65536
    → compute_id net s (pos p) (pos q) ≡ some id
    → compute_id net s (pos p) (pos r) ≡ some id
    → q ≡ r
compute_id-one_end net s p q r id x y e f = elim (Option-cases (net.parse_ip s)) [
  | inl h ↦ cc (not_parsed net s (pos p) (pos q) h, e)
  | inr (ip, h) ↦ elim (Option-cases (net.to4 ip)) [
    | inl k ↦ cc (not_ipv4 net s ip (pos p) (pos q) h k, e)
    | inr (v, k) ↦ compute_id-end net s ip v p q r h k x y (e ∙ sym f)
  ]
]

-- ===== src/Proxy/Pmap.antt =====
-- proxy/pmap.go: the principals of one cache, by address and by identity. A panic is `none`.
pub mod Innermost
pub mod Ids
pub mod Homes
pub mod Deletion
pub mod ListTree
use cloudlab_k8s.Prelude.{
  ℕ, zero, suc, ◌+◌, ◌-◌, ◌*◌, ◌%◌, ◌^◌, ◌≡◌, Bool, true, false, ◌&&◌, ◌⊎◌, Option, none, some,
  List, [], ◌∷◌, String, string_key, ◌==◌, nat_beq, Map, lookup, insert, erase, ℤ, pos, negsuc,
  pos_part, neg_part, sub_ℕ, suc_ℤ, ◌≤ℤ◌, leb_ℤ, ltb_ℤ, if◌then◌else◌,
}
use cloudlab_k8s.Proxy.Types.{Ip, IpNet, Net, InstanceCred, CachedInstance}

-- `Index`: the ports from `pmin` up to but not with `pmax`.
pub record Index : Type 0 where
  pub pmin : ℤ
  pub pmax : ℤ
  pub id : ℕ

-- `PrincipalIndex`, without the group fields that nothing reads.
pub record PrincipalIndex : Type 0 where
  pub index : Index
  pub open index use *
  pub p : String
  pub pp : String

abbrev pub force_lookup : ℕ
force_lookup = 0

-- Index.Overlap
unfoldable pub overlap : Index → Index → Bool
overlap q b = ltb_ℤ b.pmin q.pmax && ltb_ℤ q.pmin b.pmax

-- Equality of integers, and of what the tree orders its elements by.
abbrev pub eq_ℤ : ℤ → ℤ → Bool
eq_ℤ a b = leb_ℤ a b && leb_ℤ b a

abbrev pub same_key : Index → Index → Bool
same_key a b = eq_ℤ a.pmin b.pmin && nat_beq a.id b.id

-- github.com/biogo/store/interval: the tree of one address. Insert returns no error that is read,
-- Delete an error or nothing.
pub record IntTree (Tree : Type 0) : Type 0 where
  pub empty : Tree
  pub tree_insert : PrincipalIndex → Tree → Tree
  pub tree_delete : Index → Tree → Tree × Option String
  pub tree_get : Index → Tree → List PrincipalIndex

-- Membership, by recursion.
abbrev pub In : {A : Type 0} → A → List A → Type 0
In x [] = ⊥
In x (y ∷ ys) = (x ≡ y) ⊎ In x ys

-- What is documented of that tree, for elements whose range is not inverted: an element replaces
-- the one with the same start and ID, and Get returns the elements that overlap the query.
pub record IsIntTree {Tree : Type 0} (ops : IntTree Tree) (holds : Tree → PrincipalIndex → Bool)
    : Type 0 where
  pub holds-empty : (x : PrincipalIndex) → holds ops.empty x ≡ false
  pub insert_self :
      (e : PrincipalIndex) (t : Tree) → e.pmin ≤ℤ e.pmax → holds (ops.tree_insert e t) e ≡ true
  pub insert_same :
      (e x : PrincipalIndex) (t : Tree)
      → holds (ops.tree_insert e t) x ≡ true
      → (x ≡ e) ⊎ (holds t x ≡ true)
  pub insert_other :
      (e x : PrincipalIndex) (t : Tree)
      → same_key e.index x.index ≡ false
      → holds (ops.tree_insert e t) x ≡ holds t x
  pub insert_replaces :
      (e x : PrincipalIndex) (t : Tree)
      → e.pmin ≤ℤ e.pmax
      → same_key e.index x.index ≡ true
      → holds (ops.tree_insert e t) x ≡ true
      → x ≡ e
  pub delete_same :
      (d : Index) (x : PrincipalIndex) (t : Tree)
      → d.pmin ≤ℤ d.pmax
      → same_key d x.index ≡ true
      → holds (ops.tree_delete d t).0 x ≡ false
  pub delete_other :
      (d : Index) (x : PrincipalIndex) (t : Tree)
      → same_key d x.index ≡ false
      → holds (ops.tree_delete d t).0 x ≡ holds t x
  pub get_sound :
      (q : Index) (t : Tree) (x : PrincipalIndex)
      → In x (ops.tree_get q t)
      → (holds t x ≡ true) × (overlap q x.index ≡ true)
  pub get_complete :
      (q : Index) (t : Tree) (x : PrincipalIndex)
      → holds t x ≡ true
      → overlap q x.index ≡ true
      → In x (ops.tree_get q t)

-- binary.BigEndian.Uint32 of the four bytes
abbrev pub big_endian : ℕ × ℕ × ℕ × ℕ → ℕ
big_endian (a, b, c, d) = ((a * 256 + b) * 256 + c) * 256 + d

-- uint64 of an int
abbrev pub uint64 : ℤ → ℕ
uint64 z = (pos_part z + 2 ^ 64 - neg_part z) % 2 ^ 64

-- `uint64(v0) << 32 + uint64(p1) << 16 + uint64(p2)`, wrapped. An address that is not IPv4 panics.
abbrev pub pack_id : ℕ → ℤ → ℤ → ℕ
pack_id v0 p1 p2 = (v0 * 2 ^ 32 + uint64 p1 * 2 ^ 16 % 2 ^ 64 + uint64 p2) % 2 ^ 64

unfoldable pub compute_id : Net → String → ℤ → ℤ → Option ℕ
compute_id net ip p1 p2 = elim (net.parse_ip ip) [
  | none ↦ none
  | some parsed ↦ elim (net.to4 parsed) [
    | none ↦ none
    | some bytes ↦ some (pack_id (big_endian bytes) p1 p2)
  ]
]

pub record Pmap (Tree : Type 0) : Type 0 where
  pub identities : Map String Tree
  pub pid_map : Map String CachedInstance
  pub counter : ℕ

abbrev pub new_pmap : {Tree : Type 0} → Pmap Tree
new_pmap = record { identities = []; pid_map = []; counter = 1 }

unfoldable pub loaded : {Tree : Type 0} → Pmap Tree → String → Bool
loaded m ip = elim (lookup ip m.identities) [ none ↦ false | some tree ↦ true ]

unfoldable pub unload : {Tree : Type 0} → Pmap Tree → String → Pmap Tree
unload m ip = record m { identities = erase ip m.identities }

-- One round of the loop of GetIndex: `x` where it lies within `found`.
unfoldable pub inner : PrincipalIndex → PrincipalIndex → PrincipalIndex
inner found x = if leb_ℤ found.pmin x.pmin && leb_ℤ x.pmax found.pmax then x else found

-- The loop of GetIndex over the indexes behind the first.
unfoldable pub innermost : PrincipalIndex → List PrincipalIndex → PrincipalIndex
innermost found [] = found
innermost found (x ∷ indexes) = innermost (inner found x) indexes

abbrev pub port_query : ℤ → Index
port_query port = record { pmin = port; pmax = suc_ℤ port; id = force_lookup }

-- GetIndex from the indexes that the tree returned.
abbrev pub at_port : ℤ → List PrincipalIndex → Option PrincipalIndex
at_port port [] = none
at_port port (first ∷ indexes) =
    let pindex = innermost first indexes in
    if leb_ℤ pindex.pmin port && ltb_ℤ port pindex.pmax then some pindex else none

module _ {Tree : Type 0} (ops : IntTree Tree) where
  unfoldable pub get_index : Pmap Tree → String → ℤ → Option PrincipalIndex
  get_index m ip port = elim (lookup ip m.identities) [
    | none ↦ none
    | some tree ↦ at_port port (ops.tree_get (port_query port) tree)
  ]

  unfoldable pub get_principal : Pmap Tree → String → ℤ → String
  get_principal m ip port = elim (get_index m ip port) [ none ↦ "" | some index ↦ index.p ]

-- `none` is the error "Not Found".
unfoldable pub get_cached_instance : {Tree : Type 0} → Pmap Tree → String → Option CachedInstance
get_cached_instance m uuid = lookup uuid m.pid_map

module _ {Tree : Type 0} (net : Net) (ops : IntTree Tree) where
  -- The tree of the address, which is made where there is none.
  abbrev pub tree_at : String → Map String Tree → Tree
  tree_at ip m = elim (lookup ip m) [ none ↦ ops.empty | some tree ↦ tree ]

  unfoldable pub create_principal_pp :
      Pmap Tree → Ip → ℤ → ℤ → String → String → Option IpNet → String → Option (Pmap Tree)
  create_principal_pp m ip pmin pmax p pp cidr t =
      let ipstr = net.ip_string ip in
      elim (compute_id net ipstr pmin (suc_ℤ pmax)) [
        | none ↦ none
        | some id ↦
            let e : PrincipalIndex = record {
              index = record { pmin = pmin; pmax = suc_ℤ pmax; id = id };
              p = p;
              pp = pp;
            } in
            let inst : CachedInstance = record {
              ip = ip;
              lport = pmin;
              rport = pmax;
              id = record { pid = p; ppid = pp; cidr = cidr; type = t };
            } in
            some (record m {
              counter = m.counter + 1;
              identities =
                  insert ipstr (ops.tree_insert e (tree_at ipstr m.identities)) m.identities;
              pid_map = insert p inst m.pid_map;
            })
      ]

  unfoldable pub create_principal : Pmap Tree → Ip → ℤ → ℤ → String → Option (Pmap Tree)
  create_principal m ip pmin pmax p = create_principal_pp m ip pmin pmax p "" none ""

  -- The error is `some`.
  unfoldable pub delete_principal : Pmap Tree → String → ℤ → ℤ → Option (Pmap Tree × Option String)
  delete_principal m ip pmin pmax = elim (lookup ip m.identities) [
    | none ↦ some (m, some "not found")
    | some tree ↦ elim (compute_id net ip pmin (suc_ℤ pmax)) [
      | none ↦ none
      | some id ↦
          let (tree', error) =
            ops.tree_delete (record { pmin = pmin; pmax = suc_ℤ pmax; id = id }) tree in
          some (record m { identities = insert ip tree' m.identities }, error)
    ]
  ]

  unfoldable pub put_cached_instance : Pmap Tree → CachedInstance → Option (Pmap Tree)
  put_cached_instance m inst =
      elim (create_principal_pp m inst.ip inst.lport inst.rport inst.id.pid inst.id.ppid
        inst.id.cidr inst.id.type) [
          | none ↦ none
          | some m' ↦ some (record m' { pid_map = insert inst.id.pid inst m'.pid_map })
        ]

  unfoldable pub del_cached_instance_alt : Pmap Tree → Ip → ℤ → ℤ → String → Option (Pmap Tree)
  del_cached_instance_alt m ip lport rport pid =
      elim (delete_principal m (net.ip_string ip) lport rport) [
        | none ↦ none
        | some (m', error) ↦ some (record m' { pid_map = erase pid m'.pid_map })
      ]

  unfoldable pub del_cached_instance : Pmap Tree → CachedInstance → Option (Pmap Tree)
  del_cached_instance m inst = del_cached_instance_alt m inst.ip inst.lport inst.rport inst.id.pid

-- ===== src/Proxy/Riak/Roundtrip.antt =====
-- What is written to the backend can be read back: by its key, and from a search.
use cloudlab_k8s.Prelude.{
  ◌≡◌, refl, ◌≢◌, ◌∙◌, ap, Option, none, some, arith, String, string_key, Text, ℤ,
}
use text.Mathlib.TextEquality.{eq_iff}
use cloudlab_k8s.Proxy.Types.{IpNet, Net, InstanceCred, CachedInstance}
use cloudlab_k8s.Proxy.Fmt.{sscan_ports}
use cloudlab_k8s.Proxy.Fmt.RoundTrip.{IsInt, sscan_ports-sprint_int}
use cloudlab_k8s.Proxy.Riak.{
  net_map_key, Codec, netmap_pid, netmap_id, netmap_cidr, netmap_type, net_map_obj, to_bytes,
  cred_of, instance_cred_from_bytes, SearchDoc, field, doc_type, doc_cidr, doc_instance,
  decoded_cred, encoded_bytes, gen_cached_instance,
}

-- Package net prints the network, if there is one, as a text that it parses back.
abbrev pub IsPrinted : Net → Option IpNet → Type 0
IsPrinted net none = Unit
IsPrinted net (some n) = (net.parse_cidr (net.cidr_string n) ≡ some n) × (net.cidr_string n ≢ "")

cred_of-net_map_obj :
    (net : Net) (pid ppid type : String) (cidr : Option IpNet)
    → IsPrinted net cidr
    → cred_of net (net_map_obj net (record { pid = pid; ppid = ppid; cidr = cidr; type = type }))
      ≡ some (record { pid = pid; ppid = ppid; cidr = cidr; type = type })
unfolding cred_of net_map_obj
cred_of-net_map_obj net pid ppid type none p = ground arith
cred_of-net_map_obj net pid ppid type (some n) (parsed, given) =
    ground (arith, eq_iff (net.cidr_string n) "")

-- InstanceCredFromBytes of the bytes that Bytes makes of a credential is the credential, where
-- package json encodes its object and decodes it back, and package net does so with its network.
pub instance_cred_from_bytes-to_bytes :
    (net : Net) (codec : Codec) (i : InstanceCred) (bytes : Text)
    → codec.encode (net_map_obj net i) ≡ some bytes
    → codec.decode bytes ≡ some (net_map_obj net i)
    → IsPrinted net i.cidr
    → instance_cred_from_bytes net codec (to_bytes net codec i) ≡ some i
unfolding instance_cred_from_bytes to_bytes
instance_cred_from_bytes-to_bytes net codec i bytes e d p =
    ap (λ o. decoded_cred net (codec.decode (encoded_bytes o))) e
    ∙ ap (decoded_cred net) d
    ∙ cred_of-net_map_obj net i.pid i.ppid i.type i.cidr p

-- A search document of the instance: its bucket, its key, and in each field the text that
-- PutNetIDMap wrote there.
pub record IsDocOf (net : Net) (codec : Codec) (inst : CachedInstance) (d : SearchDoc)
    : Type 0 where
  pub bucket_eq : d.bucket ≡ net.ip_string inst.ip
  pub key_eq : d.key ≡ net_map_key inst.lport inst.rport
  pub pid_field : field d netmap_id ≡ some (net_map_obj net inst.id).pid
  pub ppid_field : field d netmap_pid ≡ some (net_map_obj net inst.id).ppid
  pub cidr_field : field d netmap_cidr ≡ some (net_map_obj net inst.id).cidr
  pub type_field : field d netmap_type ≡ some (net_map_obj net inst.id).type

doc_cidr_lem :
    (net : Net) (pid ppid type : String) (cidr : Option IpNet)
    → IsPrinted net cidr
    → doc_cidr net
        (some (net_map_obj net (record { pid = pid; ppid = ppid; cidr = cidr; type = type })).cidr)
      ≡ cidr
unfolding doc_cidr net_map_obj
doc_cidr_lem net pid ppid type none p = refl
doc_cidr_lem net pid ppid type (some n) (parsed, given) =
    ground (arith, eq_iff (net.cidr_string n) "")

sscan_ports-net_map_key :
    (a b : ℤ) → IsInt a → IsInt b → sscan_ports (net_map_key a b) ≡ some (a, b)
unfolding net_map_key
sscan_ports-net_map_key = sscan_ports-sprint_int

-- genCachedInstance of a search document of an instance is that instance: its address and ports from
-- the bucket and the key, its credential from the fields. The ports are ints, and package net parses
-- the address and the network that it printed.
pub gen_cached_instance_lem :
    (net : Net) (codec : Codec) (inst : CachedInstance) (d : SearchDoc)
    → IsDocOf net codec inst d
    → IsPrinted net inst.id.cidr
    → IsInt inst.lport
    → IsInt inst.rport
    → net.parse_ip (net.ip_string inst.ip) ≡ some inst.ip
    → gen_cached_instance net codec d ≡ some inst
unfolding gen_cached_instance doc_instance
gen_cached_instance_lem net codec inst d h p l r parsed =
    rw
      (
        ap sscan_ports h.key_eq ∙ sscan_ports-net_map_key inst.lport inst.rport l r,
        ap net.parse_ip h.bucket_eq ∙ parsed,
        h.ppid_field,
        h.pid_field,
        h.type_field,
        h.cidr_field,
        doc_cidr_lem net inst.id.pid inst.id.ppid inst.id.type inst.id.cidr p,
      )
      (unfold net_map_obj doc_type in refl)

-- ===== src/Proxy/Types.antt =====
-- The data of proxy/types.go and proxy/constants.go, the statuses of net/http that the proxy
-- returns, and Go's net package as a parameter.
use cloudlab_k8s.Prelude.{ℕ, ℤ, Bool, [], Option, List, String}

-- net.IP: 4 or 16 bytes.
abbrev pub Ip : Type 0
Ip = List ℕ

-- The nil address.
abbrev pub nil_ip : Ip
nil_ip = []

-- net.IPNet
pub record IpNet : Type 0 where
  pub ip : Ip
  pub mask : List ℕ

-- The functions of package net that the proxy calls. `to4` is the four bytes of an IPv4 address,
-- `none` where Go's To4 returns nil.
pub record Net : Type 0 where
  pub ip_string : Ip → String
  pub parse_ip : String → Option Ip
  pub ip_equal : Ip → Ip → Bool
  pub cidr_contains : IpNet → Ip → Bool
  pub to4 : Ip → Option (ℕ × ℕ × ℕ × ℕ)
  pub parse_cidr : String → Option IpNet
  pub cidr_string : IpNet → String

pub record InstanceCred : Type 0 where
  pub pid : String
  pub ppid : String
  pub cidr : Option IpNet
  pub type : String

pub record CachedInstance : Type 0 where
  pub ip : Ip
  pub lport : ℤ
  pub rport : ℤ
  pub id : InstanceCred

pub record Pod : Type 0 where
  pub uuid : String
  pub tag : String

abbrev pub status_ok : ℕ
status_ok = 200

abbrev pub bad_request : ℕ
bad_request = 400

abbrev pub unauthorized : ℕ
unauthorized = 401

abbrev pub not_found : ℕ
not_found = 404

abbrev pub internal_server_error : ℕ
internal_server_error = 500

-- proxy/constants.go
abbrev pub vm_instance_type : String
vm_instance_type = "vm"

abbrev pub normal_instance_type : String
normal_instance_type = "normal"

abbrev pub noauth_prefix : String
noauth_prefix = "noauth_"

abbrev pub default_vm_trust_hub : String
default_vm_trust_hub = "noauth_vm"

abbrev pub default_ctn_trust_hub : String
default_ctn_trust_hub = "noauth_ctn"

-- ===== src/App/Config.antt =====
-- src/config.rs. Reading and parsing a file (std, crate serde_yaml), making a directory, the lower
-- case of a text and the addresses of the machine (crates public_ip, get_if_addrs) are parameters.
use rust_p2p_filesystem.Base.{
  ℕ, Bool, true, false, not, ◌&&◌, List, [], ◌∷◌, Option, none, some, if◌then◌else◌, list_beq,
  find_first, nat_eq,
}
use rust_p2p_filesystem.Base.Outcome.{Result, ok, err}
use rust_p2p_filesystem.Key.{Key}
use rust_p2p_filesystem.Networking.NodeInfo.{SocketAddr}

pub data IpAddressType : Type 0 where
  public_ip local_ip loopback_ip : IpAddressType

abbrev public_name : List ℕ
public_name = b'p' ∷ b'u' ∷ b'b' ∷ b'l' ∷ b'i' ∷ b'c' ∷ []

abbrev local_name : List ℕ
local_name = b'l' ∷ b'o' ∷ b'c' ∷ b'a' ∷ b'l' ∷ []

abbrev loopback_name : List ℕ
loopback_name = b'l' ∷ b'o' ∷ b'o' ∷ b'p' ∷ b'b' ∷ b'a' ∷ b'c' ∷ b'k' ∷ []

-- `fmt` of IpAddressType.
unfoldable pub ip_type_text : IpAddressType → List ℕ
ip_type_text public_ip = public_name
ip_type_text local_ip = local_name
ip_type_text loopback_ip = loopback_name

-- None is the error "invalid IP address type".
unfoldable pub deserialize_ip_type : (List ℕ → List ℕ) → List ℕ → Option IpAddressType
unfolding list_beq
deserialize_ip_type to_lowercase s =
    let name = to_lowercase s in
    if list_beq name public_name
    then some public_ip
    else if list_beq name local_name
    then some local_ip
    else if list_beq name loopback_name
    then some loopback_ip
    else none

pub record Config : Type 0 where
  pub beacon_node_address : Option SocketAddr
  pub beacon_node_key : Option Key
  pub node_port : Option ℕ
  pub ip_address_type : IpAddressType
  pub cache_file_path : Option (List ℕ)
  pub storage_path : List ℕ

pub data ConfigError : Type 0 where
  config_unreadable config_unparsed storage_not_created : ConfigError
  address_missing key_missing no_public_ip no_interfaces no_local_ip : ConfigError

pub record ConfigFiles : Type 0 where
  pub open_file : List ℕ → Option (List ℕ)
  pub from_reader : List ℕ → Option Config
  pub exists : List ℕ → Bool
  pub create_dir_all : List ℕ → Bool

-- Whether the path is there at the end.
unfoldable pub validate_storage_path : ConfigFiles → List ℕ → Bool
validate_storage_path files path =
    if not (files.exists path) then files.create_dir_all path else true

-- Where there is no port at all, the system chooses one.
unfoldable pub default_port : Option ℕ → Config → Config
default_port (some port) config = config
default_port none config = record config { node_port = some 0 }

-- The port of the command line goes first.
unfoldable pub with_port : Option ℕ → Config → Config
unfolding default_port
with_port (some port) config = record config { node_port = some port }
with_port none config = default_port config.node_port config

unfoldable pub beacon_given : Option SocketAddr → Option Key → Config → Result ConfigError Config
beacon_given none key config = err address_missing
beacon_given (some address) none config = err key_missing
beacon_given (some address) (some key) config = ok config

unfoldable pub check_beacon : Bool → Config → Result ConfigError Config
unfolding beacon_given
check_beacon true config = ok config
check_beacon false config = beacon_given config.beacon_node_address config.beacon_node_key config

unfoldable pub overwritten : Option ℕ → Result ConfigError Config → Result ConfigError Config
unfolding with_port
overwritten port_arg (err e) = err e
overwritten port_arg (ok config) = ok (with_port port_arg config)

unfoldable pub checked : ConfigFiles → Bool → Option ℕ → Config → Result ConfigError Config
unfolding validate_storage_path check_beacon overwritten
checked files skip_join port_arg config =
    if validate_storage_path files config.storage_path
    then overwritten port_arg (check_beacon skip_join config)
    else err storage_not_created

unfoldable pub parse_from_file : ConfigFiles → List ℕ → Bool → Option ℕ → Result ConfigError Config
unfolding checked
parse_from_file files file_path skip_join port_arg = elim (files.open_file file_path) [
  | none ↦ err config_unreadable
  | some text ↦ elim (files.from_reader text) [
    | none ↦ err config_unparsed
    | some config ↦ checked files skip_join port_arg config
  ]
]

pub record Interface : Type 0 where
  pub is_loopback : Bool
  pub is_ipv4 : Bool
  pub ip : ℕ

-- The public address, and the interfaces, where they can be found.
pub record Machine : Type 0 where
  pub public_addr : Option ℕ
  pub if_addrs : Option (List Interface)

abbrev pub localhost : ℕ
localhost = 2130706433

unfoldable pub resolve_ip_address : Machine → Config → Result ConfigError ℕ
unfolding find_first
resolve_ip_address machine config = elim config.ip_address_type [
  | public_ip ↦ elim machine.public_addr [ some ip ↦ ok ip | none ↦ err no_public_ip ]
  | local_ip ↦ elim machine.if_addrs [
    | none ↦ err no_interfaces
    | some interfaces ↦
        elim (find_first (λ (i : Interface). not i.is_loopback && i.is_ipv4) interfaces) [
          | some i ↦ ok i.ip
          | none ↦ err no_local_ip
        ]
  ]
  | loopback_ip ↦ ok localhost
]

-- ===== src/App/Start.antt =====
-- The start of src/main.rs, from the arguments of the command line (src/cli/args.rs) to the node
-- that joins a network.
use rust_p2p_filesystem.Base.{ℕ, Bool, true, false, List, Option, none, some, if◌then◌else◌}
use rust_p2p_filesystem.Base.Outcome.{Result, ok, err}
use rust_p2p_filesystem.Key.{Key}
use rust_p2p_filesystem.Networking.NodeInfo.{NodeInfo, SocketAddr}
use rust_p2p_filesystem.App.Config.{
  Config, ConfigError, ConfigFiles, Machine, parse_from_file, resolve_ip_address,
}
use rust_p2p_filesystem.App.Cache.{Cache, CacheError}

pub record Arguments : Type 0 where
  pub config : Option (List ℕ)
  pub cache : Option (List ℕ)
  pub verbose : Bool
  pub skip_join : Bool
  pub port : Option ℕ
  pub automatic_storage : Bool

pub data StartError : Type 0 where
  config_failed : ConfigError → StartError
  cache_failed : CacheError → StartError
  no_input node_not_created port_missing storage_not_created beacon_key_missing
        beacon_address_missing :
      StartError

-- What `main` gets from the system: the configuration files, the cache of a path, the addresses of
-- the machine, the two keys that are drawn, the directory `storage-<key>` that is made, and the address of the
-- node's socket once it is bound, none where that fails.
pub record Setting : Type 0 where
  pub files : ConfigFiles
  pub read_cache : List ℕ → Result CacheError Cache
  pub machine : Machine
  pub cache_key : Key
  pub node_key : Key
  pub storage_name : Key → List ℕ
  pub create_dir_all : List ℕ → Bool
  pub bind : SocketAddr → Option SocketAddr

unfoldable pub cache_read : Result CacheError Cache → Result StartError Cache
cache_read (err e) = err (cache_failed e)
cache_read (ok cache) = ok cache

unfoldable pub new_cache : Setting → Arguments → Result ConfigError Config → Result StartError Cache
new_cache s args (err e) = err (config_failed e)
new_cache s args (ok config) = ok (record {
  key = s.cache_key;
  skip_join = args.skip_join;
  config = config;
  routing_table_nodes = none;
})

-- The cache goes before the configuration.
unfoldable pub load_cache : Setting → Arguments → Result StartError Cache
unfolding cache_read new_cache parse_from_file
load_cache s args = elim args.cache [
  | some path ↦ cache_read (s.read_cache path)
  | none ↦ elim args.config [
    | some path ↦ new_cache s args (parse_from_file s.files path args.skip_join args.port)
    | none ↦ err no_input
  ]
]

-- A node as it is made, with its beacon; none where it does not join.
pub record Setup : Type 0 where
  pub key : Key
  pub address : SocketAddr
  pub storage_path : List ℕ
  pub beacon : Option NodeInfo

unfoldable pub choose_storage : Setting → Bool → Config → Result StartError (List ℕ)
choose_storage s true config =
    let storage_path = s.storage_name s.node_key in
    if s.create_dir_all storage_path then ok storage_path else err storage_not_created
choose_storage s false config = ok config.storage_path

unfoldable pub beacon_info : Option Key → Option SocketAddr → Result StartError (Option NodeInfo)
beacon_info none address = err beacon_key_missing
beacon_info (some key) none = err beacon_address_missing
beacon_info (some key) (some address) = ok (some (record { id = key; address = address }))

unfoldable pub beacon_of : Bool → Config → Result StartError (Option NodeInfo)
unfolding beacon_info
beacon_of true config = ok none
beacon_of false config = beacon_info config.beacon_node_key config.beacon_node_address

unfoldable pub set_up : Setting → Arguments → Cache → Result StartError Setup
unfolding resolve_ip_address choose_storage beacon_of
set_up s args cache = elim (resolve_ip_address s.machine cache.config) [
  | err e ↦ err (config_failed e)
  | ok ip ↦ elim cache.config.node_port [
    | none ↦ err port_missing
    | some port ↦ elim (choose_storage s args.automatic_storage cache.config) [
      | err e ↦ err e
      | ok storage_path ↦ elim (s.bind (record { ip = ip; port = port })) [
        | none ↦ err node_not_created
        | some address ↦ elim (beacon_of cache.skip_join cache.config) [
          | err e ↦ err e
          | ok beacon ↦ ok (record {
            key = s.node_key;
            address = address;
            storage_path = storage_path;
            beacon = beacon;
          })
        ]
      ]
    ]
  ]
]

unfoldable pub start : Setting → Arguments → Result StartError Setup
unfolding load_cache set_up
start s args = elim (load_cache s args) [ err e ↦ err e | ok cache ↦ set_up s args cache ]

-- ===== src/App/Complete.antt =====
-- A start of src/main.rs from a configuration file.
use rust_p2p_filesystem.Base.{
  ℕ, ◌≡◌, refl, ap, subst, sym, ◌∙◌, Bool, true, false, List, Option, none, some, inl, inr,
  Option-cases, Bool-cases,
}
use rust_p2p_filesystem.Base.Outcome.{Result, ok, err}
use rust_p2p_filesystem.Networking.NodeInfo.{NodeInfo, SocketAddr}
use rust_p2p_filesystem.Key.{Key}
use rust_p2p_filesystem.App.Config.{
  Config, ConfigError, ConfigFiles, parse_from_file, checked, check_beacon, with_port, default_port,
  beacon_given, overwritten, validate_storage_path,
}
use rust_p2p_filesystem.App.Start.{beacon_of, beacon_info}

-- What a start needs of a configuration: a port, and a beacon unless it does not join.
pub record IsComplete (skip_join : Bool) (config : Config) : Type 0 where
  pub port : ℕ
  pub has_port : config.node_port ≡ some port
  pub beacon : Option NodeInfo
  pub has_beacon : beacon_of skip_join config ≡ ok beacon

config_of : Config → Result ConfigError Config → Config
config_of d (ok c) = c
config_of d _ = d

beacon_given_lem :
    (address : Option SocketAddr) (key : Option Key) (c config : Config)
    → beacon_given address key c ≡ ok config
    → (c ≡ config) × ((beacon : Option NodeInfo) × (beacon_info key address ≡ ok beacon))
unfolding beacon_given beacon_info config_of
beacon_given_lem none key c config h = absurd (cc)
beacon_given_lem (some a) none c config h = absurd (cc)
beacon_given_lem (some a) (some k) c config h = (ap (config_of c) h, (_, refl))

check_beacon_lem :
    (skip_join : Bool) (c config : Config)
    → check_beacon skip_join c ≡ ok config
    → (c ≡ config) × ((beacon : Option NodeInfo) × (beacon_of skip_join c ≡ ok beacon))
unfolding check_beacon beacon_of config_of
check_beacon_lem true c config h = (ap (config_of c) h, (none, refl))
check_beacon_lem false c config h =
    beacon_given_lem c.beacon_node_address c.beacon_node_key c config h

beacon-default_port :
    (port : Option ℕ) (s : Bool) (config : Config)
    → beacon_of s (default_port port config) ≡ beacon_of s config
unfolding default_port beacon_of
beacon-default_port (some port) s config = refl
beacon-default_port none true config = refl
beacon-default_port none false config = refl

beacon-with_port :
    (port_arg : Option ℕ) (s : Bool) (config : Config)
    → beacon_of s (with_port port_arg config) ≡ beacon_of s config
unfolding with_port beacon_of
beacon-with_port (some port) true config = refl
beacon-with_port (some port) false config = refl
beacon-with_port none s config = beacon-default_port config.node_port s config

-- With the port that is there.
port-default_port :
    (port : Option ℕ) (config : Config)
    → config.node_port ≡ port
    → (p : ℕ) × ((default_port port config).node_port ≡ some p)
unfolding default_port
port-default_port (some port) config h = (port, h)
port-default_port none config h = (0, refl)

port-with_port :
    (port_arg : Option ℕ) (config : Config)
    → (p : ℕ) × ((with_port port_arg config).node_port ≡ some p)
unfolding with_port
port-with_port (some port) config = (port, refl)
port-with_port none config = port-default_port config.node_port config refl

overwritten-IsComplete :
    (skip_join : Bool) (port_arg : Option ℕ) (c config : Config) (r : Result ConfigError Config)
    → check_beacon skip_join c ≡ r
    → overwritten port_arg r ≡ ok config
    → IsComplete skip_join config
unfolding overwritten config_of
overwritten-IsComplete skip_join port_arg c config (err e) q h = absurd (cc)
overwritten-IsComplete skip_join port_arg c config (ok c') q h =
    let (same, (beacon, has)) = check_beacon_lem skip_join c c' q in
    let (port, has_port) = port-with_port port_arg c' in
    subst (IsComplete skip_join) (ap (config_of c) h) (record {
      port = port;
      has_port = has_port;
      beacon = beacon;
      has_beacon =
          beacon-with_port port_arg skip_join c' ∙ ap (beacon_of skip_join) (sym same) ∙ has;
    })

checked-IsComplete :
    (files : ConfigFiles) (skip_join : Bool) (port_arg : Option ℕ) (c config : Config)
    → checked files skip_join port_arg c ≡ ok config
    → IsComplete skip_join config
unfolding checked
checked-IsComplete files skip_join port_arg c config h =
    elim (Bool-cases (validate_storage_path files c.storage_path)) [
      | inl there ↦ overwritten-IsComplete skip_join port_arg c config _ refl (rw there at h)
      | inr missing ↦ absurd (cc (rw missing at h))
    ]

-- A configuration that `parse_from_file` accepts has a port, and unless the node does not join a
-- network it has the key and the address of a beacon, whatever the file and the command line give.
pub parse_from_file-IsComplete :
    (files : ConfigFiles) (path : List ℕ) (skip_join : Bool) (port_arg : Option ℕ) (config : Config)
    → parse_from_file files path skip_join port_arg ≡ ok config
    → IsComplete skip_join config
unfolding parse_from_file
parse_from_file-IsComplete files path skip_join port_arg config h =
    elim (Option-cases (files.open_file path)) [
      | inl missing ↦ absurd (cc (rw (missing, parse_from_file) at h))
      | inr (text, e) ↦ elim (Option-cases (files.from_reader text)) [
        | inl wrong ↦ absurd (cc (rw (e, parse_from_file, wrong) at h))
        | inr (c, f) ↦
            checked-IsComplete files skip_join port_arg c config (rw (e, parse_from_file, f) at h)
      ]
    ]

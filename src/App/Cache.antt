-- ===== src/App/Cache.antt =====
-- src/cache.rs. Files and directories (std) and the JSON form (crate serde_json) are parameters.
use rust_p2p_filesystem.Base.{ℕ, Bool, true, not, List, Option, none, some, if◌then◌else◌}
use rust_p2p_filesystem.Base.Outcome.{Result, ok, err}
use rust_p2p_filesystem.Key.{Key}
use rust_p2p_filesystem.Networking.NodeInfo.{NodeInfo}
use rust_p2p_filesystem.App.Config.{Config}

pub record Cache : Type 0 where
  pub key : Key
  pub skip_join : Bool
  pub config : Config
  pub routing_table_nodes : Option (List NodeInfo)

pub data CacheError : Type 0 where
  cache_unreadable cache_unparsed directory_not_created cache_not_written : CacheError

-- Calls that change the disk also say whether they succeeded.
pub record CacheFiles (D : Type 0) : Type 0 where
  pub open_file : List ℕ → D → Option (List ℕ)
  pub from_reader : List ℕ → Option Cache
  pub parent : List ℕ → Option (List ℕ)
  pub exists : List ℕ → D → Bool
  pub create_dir_all : List ℕ → D → D × Bool
  pub write_pretty : List ℕ → Cache → D → D × Bool

module _ {D : Type 0} (files : CacheFiles D) where
  unfoldable pub parse_cache_file : List ℕ → D → Result CacheError Cache
  parse_cache_file file_path d = elim (files.open_file file_path d) [
    | none ↦ err cache_unreadable
    | some text ↦ elim (files.from_reader text) [
      | none ↦ err cache_unparsed
      | some cache ↦ ok cache
    ]
  ]

  unfoldable pub make_parent : List ℕ → D → D × Bool
  make_parent file_path d = elim (files.parent file_path) [
    | none ↦ (d, true)
    | some folder ↦ if not (files.exists folder d) then files.create_dir_all folder d else (d, true)
  ]

  unfoldable pub save_to_file : List ℕ → Cache → D → Result CacheError (Unit {0}) × D
  unfolding make_parent
  save_to_file file_path cache d =
      let (d', made) = make_parent file_path d in
      let (d'', saved) = files.write_pretty file_path cache d' in
      if not made
      then (err directory_not_created, d')
      else if saved
      then (ok tt, d'')
      else (err cache_not_written, d'')

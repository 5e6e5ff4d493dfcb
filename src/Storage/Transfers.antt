-- ===== src/Storage/Transfers.antt =====
-- src/storage/data_transfers_table.rs: the transfers that were agreed on, by TCP port.
use rust_p2p_filesystem.Base.{ℕ, [], Option, nat_eq}
use rust_p2p_filesystem.Base.Assoc.{Map}
use rust_p2p_filesystem.Base.Assoc
use rust_p2p_filesystem.Key.{Key}
use rust_p2p_filesystem.Networking.NodeInfo.{NodeInfo}

pub record DataTransfer : Type 0 where
  pub sender : NodeInfo
  pub chunk_hash : Key

pub record DataTransfersTable : Type 0 where
  pub transfers : Map ℕ DataTransfer

unfoldable pub new : DataTransfersTable
new = record { transfers = [] }

-- The entry that was there before is handed back.
unfoldable pub add :
    ℕ → NodeInfo → Key → DataTransfersTable → DataTransfersTable × Option DataTransfer
unfolding Assoc.insert Assoc.get
add port sender chunk_hash t = (
  record t {
    transfers = Assoc.insert port (record { sender = sender; chunk_hash = chunk_hash }) t.transfers;
  },
  Assoc.get port t.transfers,
)

unfoldable pub get : ℕ → DataTransfersTable → Option DataTransfer
unfolding Assoc.get
get port t = Assoc.get port t.transfers

unfoldable pub remove : ℕ → DataTransfersTable → DataTransfersTable × Option DataTransfer
unfolding Assoc.remove Assoc.get
remove port t = (record t { transfers = Assoc.remove port t.transfers }, Assoc.get port t.transfers)

-- ===== src/Networking/NodeInfo.antt =====
-- src/networking/node_info.rs. An address is an IP address, as a number, and a port.
use rust_p2p_filesystem.Base.{ℕ, ◌≡◌, ◌↔◌, Bool, true, ◌&&◌, arith, Eq, ◌==◌, nat_eq}
use rust_p2p_filesystem.Key.{Key, key_eq, key_beq_iff}

pub record SocketAddr : Type 0 where
  pub ip : ℕ
  pub port : ℕ

pub record NodeInfo : Type 0 where
  pub id : Key
  pub address : SocketAddr

-- `NodeInfo::new`
abbrev pub new : Key → SocketAddr → NodeInfo
new id address = record { id = id; address = address }

unfoldable pub addr_beq : SocketAddr → SocketAddr → Bool
addr_beq a b = a.ip == b.ip && a.port == b.port

addr_beq_iff : (a b : SocketAddr) → (addr_beq a b ≡ true) ↔ (a ≡ b)
unfolding addr_beq
addr_beq_iff a b = (λ h. ground (arith), λ p. ground arith)

unfoldable pub node_beq : NodeInfo → NodeInfo → Bool
node_beq a b = a.id == b.id && addr_beq a.address b.address

pub node_beq_iff : (a b : NodeInfo) → (node_beq a b ≡ true) ↔ (a ≡ b)
unfolding node_beq
node_beq_iff a b = (
  λ h. ground (arith, key_beq_iff a.id b.id, addr_beq_iff a.address b.address),
  λ p. ground (arith, key_beq_iff a.id b.id, addr_beq_iff a.address b.address),
)

instance abbrev pub node_eq : Eq NodeInfo
node_eq = record { beq = node_beq; beq_iff = node_beq_iff }

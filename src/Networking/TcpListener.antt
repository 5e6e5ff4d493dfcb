-- ===== src/Networking/TcpListener.antt =====
-- src/networking/tcp_listener.rs. Binding, accepting and reading (crate tokio) are parameters.
use rust_p2p_filesystem.Base.{ℕ, List, [], ◌∷◌, Option, none, some}
use rust_p2p_filesystem.Base.Outcome.{Result, ok, err}

-- "127.0.0.1:0"
abbrev pub localhost_text : List ℕ
localhost_text = b'1' ∷ b'2' ∷ b'7' ∷ b'.' ∷ b'0' ∷ b'.' ∷ b'0' ∷ b'.' ∷ b'1' ∷ b':' ∷ b'0' ∷ []

abbrev pub tcp_timeout_milliseconds : ℕ
tcp_timeout_milliseconds = 5000

pub data TcpError : Type 0 where
  not_opened no_local_address timed_out not_accepted not_read : TcpError

-- What came of waiting for a connection for so many seconds.
pub data Accepted (S : Type 0) : Type 0 where
  late : Accepted S
  refused : Accepted S
  accepted : S → Accepted S

pub record Tcp (L S : Type 0) : Type 0 where
  pub bind : List ℕ → Option L
  pub local_port : L → Option ℕ
  pub accept : ℕ → L → Accepted S
  pub read_to_end : S → Option (List ℕ)

pub record TcpListenerService (L : Type 0) : Type 0 where
  pub listener : L
  pub port : ℕ

module _ {L S : Type 0} where
  unfoldable pub new : Tcp L S → Result TcpError (TcpListenerService L)
  new tcp = elim (tcp.bind localhost_text) [
    | none ↦ err not_opened
    | some listener ↦ elim (tcp.local_port listener) [
      | none ↦ err no_local_address
      | some port ↦ ok (record { listener = listener; port = port })
    ]
  ]

  unfoldable pub read_stream : Tcp L S → Accepted S → Result TcpError (List ℕ)
  read_stream tcp late = err timed_out
  read_stream tcp refused = err not_accepted
  read_stream tcp (accepted stream) = elim (tcp.read_to_end stream) [
    | none ↦ err not_read
    | some bytes ↦ ok bytes
  ]

  -- The milliseconds are waited for as seconds.
  unfoldable pub receive_data : Tcp L S → TcpListenerService L → Result TcpError (List ℕ)
  unfolding read_stream
  receive_data tcp service = read_stream tcp (tcp.accept tcp_timeout_milliseconds service.listener)

-- ===== src/Tests/Data.antt =====
-- Sample keys, contacts, an environment and a file system in memory.
use rust_p2p_filesystem.Base.{ℕ, ◌+◌, ◌*◌, length, ◌<◌, refl, true, List, [], ◌∷◌, some, arith}
use rust_p2p_filesystem.Base.Assoc.{Map, get, insert, remove, contains_key}
use rust_p2p_filesystem.Base.Outcome.{done}
use rust_p2p_filesystem.Key.{Key, IsKey}
use rust_p2p_filesystem.Networking.NodeInfo.{NodeInfo}
use rust_p2p_filesystem.Networking.Messages.{Transport, Request, RequestType, ResponseType}
use rust_p2p_filesystem.Node.Requests.{Environment, timed_out}
use rust_p2p_filesystem.Routing.KBucket.{response_timeout}
use rust_p2p_filesystem.Routing.Table.{Ping}
use rust_p2p_filesystem.Storage.FileSystem.{FilePath, FileSystem}
use rust_p2p_filesystem.Storage.Files.{name_eq}

abbrev pub zeros : List ℕ
zeros = 0 ∷ 0 ∷ 0 ∷ 0 ∷ 0 ∷ 0 ∷ 0 ∷ 0 ∷ 0 ∷ 0 ∷ 0 ∷ 0 ∷ 0 ∷ 0 ∷ 0 ∷ 0 ∷ 0 ∷ 0 ∷ 0 ∷ []

abbrev pub key_of : ℕ → Key
key_of b = record { value = b ∷ zeros }

pub key_of-IsKey : (b : ℕ) → b < 256 → IsKey (key_of b)
key_of-IsKey b h = record {
  len = refl;
  bytes = (
    h,
    (
      omega arith,
      (
        omega arith,
        (
          omega arith,
          (
            omega arith,
            (
              omega arith,
              (
                omega arith,
                (
                  omega arith,
                  (
                    omega arith,
                    (
                      omega arith,
                      (
                        omega arith,
                        (
                          omega arith,
                          (
                            omega arith,
                            (
                              omega arith,
                              (
                                omega arith,
                                (
                                  omega arith,
                                  (omega arith, (omega arith, (omega arith, (omega arith, tt)))),
                                ),
                              ),
                            ),
                          ),
                        ),
                      ),
                    ),
                  ),
                ),
              ),
            ),
          ),
        ),
      ),
    ),
  );
}

abbrev pub contact : ℕ → NodeInfo
contact b = record { id = key_of b; address = record { ip = 1; port = 8000 + b } }

abbrev pub silent : Ping
silent key = done (some response_timeout)

-- A length that contacts add 62 characters each to.
abbrev pub json_length : ResponseType → ℕ
json_length (ResponseType.nodes ns) = 62 * length ns
json_length _ = 200

abbrev pub transport : Transport
transport = record {
  request_length = λ r. some 300;
  response_length = λ r. some (json_length r.response_type);
  takes_request = λ r. true;
  takes_response = λ r. true;
}

abbrev pub env : Environment (Unit {0})
env = record {
  transport = transport;
  draw_id = λ w. 7;
  draw_channel = λ w. 9;
  tcp_upload = λ ip port bytes. done true;
  await = λ r m w. (timed_out, m, w);
}

unfoldable pub memory : FileSystem
unfolding get insert remove contains_key
memory = record {
  Disk = Map FilePath (List ℕ);
  exists = λ p d. contains_key p d;
  create = λ p d. (insert p [] d, true);
  write_all = λ p bytes d. (insert p bytes d, true);
  read = λ p d. get p d;
  remove_file = λ p d. (remove p d, true);
}

abbrev pub request : RequestType → Request
request t = record { request_type = t; sender = contact 128; receiver = contact 0; request_id = 5 }

-- ===== src/Lib.antt =====
-- A model of the peer-to-peer file system, a Kademlia network whose nodes store encrypted chunks of
-- files, and theorems about it. Paths are relative to the repository's root.
--
-- The parts and their files:
--   Constants          src/constants.rs.
--   Key                src/core/key.rs: keys, their distance and its order (Metric, Order), leading
--                      zeros (Byte, Leading), hexadecimal form (Hex), keys for a bucket (Bits).
--   Networking         src/networking: contacts (NodeInfo), messages and the dispatcher's checks
--                      (Messages), pending requests (RequestMap), the TCP listener (TcpListener).
--   Routing            src/routing: k-buckets (KBucket) and the table of them (Table). A bucket
--                      pings through a parameter, which Node/Requests fills.
--   Lookup             src/core/lookup.rs: the buffer that drives an iterative lookup.
--   Storage            src/storage: agreed transfers, stored chunks and uploaded files, on a file
--                      system that is a parameter (FileSystem).
--   Sharding           src/sharding: the cipher's calls (Encryption), handles of files (Metadata),
--                      the uploader that cuts a file into encrypted chunks (Uploader), the
--                      downloader (Downloader), and both together (Reassembly).
--   Node               src/core/node.rs: requests that wait for their responses (Requests), the
--                      rounds of lookups made of them (Lookups), find_node, join_network and
--                      find_storer made of these (Calls), and upload_file (Uploads) and
--                      download_file (Downloads) made of these and of Sharding.
--   Handler            src/core/request_handler.rs: what a node does with a request, with the
--                      table, the storage and the pending requests as its state; and the workers
--                      that take messages from the queue (Worker), one message after the other.
--   App                src/main.rs, src/config.rs, src/cache.rs and src/cli/args.rs: the start of a
--                      node (Config, Cache, Start), and which call a command leads to (Commands).
--   Base               lists, sorting, maps and results of the standard library.
--   Tests              the theorems at concrete inputs.
--
-- Functions have the names of the source. A method that changes its object returns the new one
-- beside its result; a handler also returns the effects that other nodes see. A call that can panic
-- or wait for ever returns a Task (Base/Outcome). The clock is an argument, in seconds, and does
-- not run backwards.
--
-- Parameters: the decoder of the crate hex (DecodesHex says what is relied on), the hash and the
-- random generator, the cipher (IsCipher), the serialisation of metadata (IsBincode), open files
-- (IsReader, IsWriter) and paths, TCP connections (Network), the size of a chunk, the serialised
-- length of messages and the socket (Transport; IsJson says what is relied on), the file system
-- (FileSystem), what other nodes answer (ask), and what other tasks do while a call waits and
-- whether a TCP upload returns (Environment).
--
-- Fuel: the loop of get_n_closest has as much as there are buckets on both sides of the first one,
-- and two more; every round moves one of the two indices, so it is never used up. The rounds of a
-- lookup have fuel because other nodes may name new contacts without end; where all contacts are
-- among given ones, Node/Rounds says how much is enough. The batches of find_storers_parallel are
-- no more than the keys. The loop of upload_file has at most as many rounds as the file has bytes
-- (Node/Uploads/File/Loop).
--
-- Not modelled: the task that reads the UDP socket, several workers at work on messages at the same
-- time, the parsing of arguments, what commands print, the tasks that save the cache, and logging,
-- which are input and output; debug assertions.
pub mod Base
pub mod Constants
pub mod Key
pub mod Networking
pub mod Routing
pub mod Lookup
pub mod Storage
pub mod Sharding
pub mod Node
pub mod Handler
pub mod App
pub mod Tests

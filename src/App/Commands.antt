-- ===== src/App/Commands.antt =====
-- The loop over the lines of the standard input of src/main.rs: which call of the node a line leads
-- to. What the call prints is left out. The lower case of a text, reading a file and cutting off
-- its blanks are parameters, as are those of keys and of handles.
use rust_p2p_filesystem.Base.{ℕ, List, [], ◌∷◌, Option, none, some, if◌then◌else◌, list_beq, nat_eq}
use rust_p2p_filesystem.Base.Outcome.{Result, ok, err}
use rust_p2p_filesystem.Key.{Key, KeyError, from_hex_str}
use rust_p2p_filesystem.Sharding.Metadata.{FileMetadata, Bincode, HandleError, from_str}

pub data Command : Type 0 where
  -- Calls of the node.
  ping find_node : Key → Command
  upload : List ℕ → Command
  download : FileMetadata → List ℕ → Command
  dump_rt dump_chunks : Command
  -- What only prints an error.
  invalid_node_id invalid_handle handle_file_unreadable wrong_command : Command

pub record Shell : Type 0 where
  pub to_lowercase : List ℕ → List ℕ
  pub hex_decode : List ℕ → Option (List ℕ)
  pub bincode : Bincode
  pub read_to_string : List ℕ → Option (List ℕ)
  pub trim : List ℕ → List ℕ

abbrev ping_text : List ℕ
ping_text = b'p' ∷ b'i' ∷ b'n' ∷ b'g' ∷ []

abbrev find_node_text : List ℕ
find_node_text = b'f' ∷ b'i' ∷ b'n' ∷ b'd' ∷ b'_' ∷ b'n' ∷ b'o' ∷ b'd' ∷ b'e' ∷ []

abbrev upload_text : List ℕ
upload_text = b'u' ∷ b'p' ∷ b'l' ∷ b'o' ∷ b'a' ∷ b'd' ∷ []

abbrev download_text : List ℕ
download_text = b'd' ∷ b'o' ∷ b'w' ∷ b'n' ∷ b'l' ∷ b'o' ∷ b'a' ∷ b'd' ∷ []

abbrev download_from_handle_file_text : List ℕ
download_from_handle_file_text =
    b'd' ∷ b'o' ∷ b'w' ∷ b'n' ∷ b'l' ∷ b'o' ∷ b'a' ∷ b'd' ∷ b'_' ∷ b'f' ∷ b'r' ∷ b'o' ∷ b'm' ∷ b'_'
    ∷ b'h' ∷ b'a' ∷ b'n' ∷ b'd' ∷ b'l' ∷ b'e' ∷ b'_' ∷ b'f' ∷ b'i' ∷ b'l' ∷ b'e' ∷ []

abbrev dump_rt_text : List ℕ
dump_rt_text = b'd' ∷ b'u' ∷ b'm' ∷ b'p' ∷ b'_' ∷ b'r' ∷ b't' ∷ []

abbrev dump_chunks_text : List ℕ
dump_chunks_text = b'd' ∷ b'u' ∷ b'm' ∷ b'p' ∷ b'_' ∷ b'c' ∷ b'h' ∷ b'u' ∷ b'n' ∷ b'k' ∷ b's' ∷ []

unfoldable pub with_key : (Key → Command) → Result KeyError Key → Command
with_key call (ok node_id) = call node_id
with_key call (err e) = invalid_node_id

unfoldable pub with_handle : List ℕ → Result HandleError FileMetadata → Command
with_handle dir (ok file_metadata) = download file_metadata dir
with_handle dir (err e) = invalid_handle

unfoldable pub from_handle_file : Shell → List ℕ → Option (List ℕ) → Command
unfolding with_handle from_str
from_handle_file s dir none = handle_file_unreadable
from_handle_file s dir (some handle_str) =
    with_handle dir (from_str s.bincode s.hex_decode (s.trim handle_str))

-- Commands of one, two and three parts, by their name.
unfoldable pub one_part : List ℕ → Command
unfolding list_beq
one_part name =
    if list_beq name dump_rt_text
    then dump_rt
    else if list_beq name dump_chunks_text
    then dump_chunks
    else wrong_command

unfoldable pub two_parts : Shell → List ℕ → List ℕ → Command
unfolding list_beq with_key from_hex_str
two_parts s name part =
    if list_beq name ping_text
    then with_key ping (from_hex_str s.hex_decode part)
    else if list_beq name find_node_text
    then with_key find_node (from_hex_str s.hex_decode part)
    else if list_beq name upload_text
    then upload part
    else wrong_command

unfoldable pub three_parts : Shell → List ℕ → List ℕ → List ℕ → Command
unfolding list_beq with_handle from_handle_file from_str
three_parts s name part dir =
    if list_beq name download_text
    then with_handle dir (from_str s.bincode s.hex_decode part)
    else if list_beq name download_from_handle_file_text
    then from_handle_file s dir (s.read_to_string part)
    else wrong_command

-- The parts of a line; none where it is blank.
unfoldable pub read_command : Shell → List (List ℕ) → Option Command
unfolding one_part two_parts three_parts
read_command s [] = none
read_command s (name ∷ []) = some (one_part (s.to_lowercase name))
read_command s (name ∷ part ∷ []) = some (two_parts s (s.to_lowercase name) part)
read_command s (name ∷ part ∷ dir ∷ []) = some (three_parts s (s.to_lowercase name) part dir)
read_command s (name ∷ part ∷ dir ∷ more ∷ rest) = some wrong_command

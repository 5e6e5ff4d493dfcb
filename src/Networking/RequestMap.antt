-- ===== src/Networking/RequestMap.antt =====
-- src/networking/request_map.rs. A sender of a oneshot channel is the channel's number. Each method
-- holds the lock of the map for one step; `handle_response` takes it twice, so that other tasks may
-- run between its test and its removal.
pub mod Delivery
use rust_p2p_filesystem.Base.{
  ℕ, Bool, List, [], ◌∷◌, Option, none, some, if◌then◌else◌, nat_eq, not,
}
use rust_p2p_filesystem.Base.Assoc.{Map, get, insert, remove, contains_key}
use rust_p2p_filesystem.Networking.Messages.{Response}

pub record RequestMap : Type 0 where
  pub map : Map ℕ ℕ

unfoldable pub new : RequestMap
new = record { map = [] }

unfoldable pub add_request : ℕ → ℕ → RequestMap → RequestMap
unfolding insert
add_request request_id sender m = record m { map = insert request_id sender m.map }

unfoldable pub take_request : ℕ → RequestMap → RequestMap × Option ℕ
unfolding remove get
take_request request_id m = (record m { map = remove request_id m.map }, get request_id m.map)

unfoldable pub contains_request : ℕ → RequestMap → Bool
unfolding contains_key
contains_request request_id m = contains_key request_id m.map

unfoldable pub remove_request : ℕ → RequestMap → RequestMap
unfolding remove
remove_request request_id m = record m { map = remove request_id m.map }

-- What `handle_response` does once it has taken the sender: the message on its channel, if any.
unfoldable pub deliver : Response → RequestMap × Option ℕ → RequestMap × Option (ℕ × Response)
deliver response (m, none) = (m, none)
deliver response (m, some sender) = (m, some (sender, response))

-- With nothing else between its two steps.
unfoldable pub handle_response : Response → RequestMap → RequestMap × Option (ℕ × Response)
unfolding contains_request take_request deliver
handle_response response m =
    if not (contains_request response.request_id m)
    then (m, none)
    else deliver response (take_request response.request_id m)

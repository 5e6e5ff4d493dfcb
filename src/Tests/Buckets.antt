-- ===== src/Tests/Buckets.antt =====
-- The theorems about k-buckets at concrete buckets.
use rust_p2p_filesystem.Base.{
  ℕ, ◌≤◌, ◌<◌, ◌≡◌, refl, Bool, true, false, List, [], ◌∷◌, ◌++◌, Option, none, some, if◌then◌else◌,
  arith, length, ◌==◌,
}
use rust_p2p_filesystem.Base.Outcome.{ok, err, done}
use rust_p2p_filesystem.Constants.{K}
use rust_p2p_filesystem.Key.{Key, key_eq, IsKey}
use rust_p2p_filesystem.Key
use rust_p2p_filesystem.Routing.KBucket.{
  KBucket, add_nodeinfo, remove_nodeinfo, get_nodeinfo, bad_response, response_timeout,
  failed_to_add,
}
use rust_p2p_filesystem.Routing.KBucket.Laws.{IsBucket, Distinct, erase, remove_nodeinfo_lem}
use rust_p2p_filesystem.Routing.KBucket.Add.{
  add_nodeinfo-IsBucket, add_nodeinfo_room, add_nodeinfo_full,
}
use rust_p2p_filesystem.Tests.Data.{contact, silent, key_of, key_of-IsKey}

-- A bucket of capacity `c` with two nodes.
abbrev two : ℕ → KBucket
two c = record { nodes = contact 1 ∷ contact 2 ∷ []; capacity = c; last_lookup_at = 0 }

two-Distinct : Distinct (two K).nodes
unfolding Key.key_beq rust_p2p_filesystem.Base.list_beq
two-Distinct = ((refl, tt), (tt, tt))

two-IsBucket : IsBucket (λ n. IsKey n.id) (two K)
two-IsBucket = record {
  full_capacity = refl;
  bounded = omega arith;
  distinct = two-Distinct;
  members = (key_of-IsKey 1 (omega arith), (key_of-IsKey 2 (omega arith), tt));
}

remove_nodeinfo_lem_example :
    remove_nodeinfo (key_of 1) (two K)
    ≡ (record (two K) { nodes = erase (key_of 1) (two K).nodes }, get_nodeinfo (key_of 1) (two K))
remove_nodeinfo_lem_example = remove_nodeinfo_lem (key_of 1) (two K)

stored_third :
    add_nodeinfo silent (contact 3) (two K)
    ≡ done (record (two K) { nodes = contact 1 ∷ contact 2 ∷ contact 3 ∷ [] }, ok tt)
unfolding add_nodeinfo Key.key_beq rust_p2p_filesystem.Base.list_beq
stored_third = refl

add_nodeinfo-IsBucket_example :
    IsBucket (λ n. IsKey n.id) (record (two K) { nodes = contact 1 ∷ contact 2 ∷ contact 3 ∷ [] })
add_nodeinfo-IsBucket_example =
    add_nodeinfo-IsBucket (λ n. IsKey n.id) silent (contact 3) (two K) two-IsBucket
      (key_of-IsKey 3 (omega arith)) stored_third

room_left : length (erase (contact 3).id (two K).nodes) < K
unfolding erase Key.key_beq rust_p2p_filesystem.Base.list_beq
room_left = omega arith

add_nodeinfo_room_example :
    (b' : KBucket) × (add_nodeinfo silent (contact 3) (two K) ≡ done (b', ok tt))
    × (b'.nodes ≡ erase (key_of 3) (two K).nodes ++ contact 3 ∷ [])
    × ((k : Key)
        → get_nodeinfo k b' ≡ (if key_of 3 == k then some (contact 3) else get_nodeinfo k (two K)))
add_nodeinfo_room_example = add_nodeinfo_room silent (contact 3) (two K) two-Distinct room_left

third_absent : get_nodeinfo (contact 3).id (two 2) ≡ none
unfolding get_nodeinfo Key.key_beq rust_p2p_filesystem.Base.list_beq
third_absent = refl

add_nodeinfo_full_example :
    add_nodeinfo silent (contact 3) (two 2)
    ≡ done (elim (some response_timeout) [
      | none ↦ (record (two 2) { nodes = contact 2 ∷ contact 1 ∷ [] }, ok tt)
      | some bad_response ↦ (record (two 2) { nodes = contact 2 ∷ contact 3 ∷ [] }, ok tt)
      | some response_timeout ↦ (record (two 2) { nodes = contact 2 ∷ contact 3 ∷ [] }, ok tt)
      | some _ ↦ (record (two 2) { nodes = contact 2 ∷ [] }, err failed_to_add)
    ])
add_nodeinfo_full_example =
    add_nodeinfo_full silent (contact 3) (two 2) (contact 1) (contact 2 ∷ []) refl (omega arith)
      third_absent (some response_timeout) refl

-- ===== src/Routing/KBucket/Add.antt =====
-- `add_nodeinfo` of src/routing/kbucket.rs: its invariant, and its result on every branch.
use rust_p2p_filesystem.Base.{
  ℕ, ◌<◌, ◌≤◌, ◌≡◌, refl, sym, ◌∙◌, ap, subst, false, List, [], ◌∷◌, ◌++◌, Option, none, some,
  arith, ltb, if◌then◌else◌, length, ◌==◌, All, inl, inr, Bool-cases, ltb→lt, lt→ltb, ◌⊎◌,
}
use rust_p2p_filesystem.Base.Outcome.{Result, ok, err, Task, done, panicked, blocked, ◌>>=◌}
use rust_p2p_filesystem.Key.{Key, key_eq}
use rust_p2p_filesystem.Networking.NodeInfo.{NodeInfo}
use rust_p2p_filesystem.Routing.KBucket.{
  KBucket, KBucketError, failed_to_add, NodeError, bad_response, response_timeout, unable_to_send,
  ping_missing_node, routing_table_failed, get_nodeinfo, after_ping, replace_head, add_nodeinfo,
}
use rust_p2p_filesystem.Routing.KBucket.Laws.{
  erase, remove_nodeinfo_lem, Distinct, find-erase, find-append, erase_absent, erase-absent,
  erase-Distinct, All-erase, length-erase-le, IsBucket, snoc-IsBucket, after_ping-IsBucket,
}

abbrev pub Ping : Type 0
Ping = Key → Task (Option NodeError)

-- The bucket once an older entry for the key is out.
abbrev pub erased : Key → KBucket → KBucket
erased k b = record b { nodes = erase k b.nodes }

add_room :
    (ping : Ping) (new : NodeInfo) (b : KBucket)
    → length (erase new.id b.nodes) < b.capacity
    → add_nodeinfo ping new b ≡ done (record b { nodes = erase new.id b.nodes ++ new ∷ [] }, ok tt)
unfolding add_nodeinfo
add_room ping new b h =
    rw (remove_nodeinfo_lem new.id b, lt→ltb (length (erase new.id b.nodes)) b.capacity h) refl

add_full :
    (ping : Ping) (new : NodeInfo) (b : KBucket)
    → b.capacity ≤ length (erase new.id b.nodes)
    → add_nodeinfo ping new b ≡ replace_head ping (erased new.id b) (erase new.id b.nodes) new
unfolding add_nodeinfo
add_full ping new b h = elim (Bool-cases (ltb (length (erase new.id b.nodes)) b.capacity)) [
  | inl e ↦ absurd (omega (arith, ltb→lt (length (erase new.id b.nodes)) b.capacity e))
  | inr e ↦ rw (remove_nodeinfo_lem new.id b, e) refl
]

first : Task (KBucket × Result KBucketError (Unit {0})) → KBucket → KBucket
first (done (b, r)) d = b
first panicked d = d
first blocked d = d

task_fst : {x y : KBucket × Result KBucketError (Unit {0})} → done x ≡ done y → x.0 ≡ y.0
unfolding first
task_fst {x} {y} h = ap (λ t. first t x.0) h

room-cases : (m n : ℕ) → (m < n) ⊎ (n ≤ m)
room-cases m n = omega arith

module _ (P : NodeInfo → Type 0) (ping : Ping) (new : NodeInfo) where
  erased-IsBucket : (b : KBucket) → IsBucket P b → IsBucket P (erased new.id b)
  erased-IsBucket b v = record {
    full_capacity = v.full_capacity;
    bounded = omega (arith, length-erase-le new.id b.nodes, v.bounded);
    distinct = erase-Distinct new.id b.nodes v.distinct;
    members = All-erase P new.id b.nodes v.members;
  }

  replace_head-IsBucket :
      (b : KBucket) (ns : List NodeInfo)
      → IsBucket P (record b { nodes = ns })
      → All (λ m. (m.id == new.id) ≡ false) ns
      → P new
      → {b' : KBucket} {r : Result KBucketError (Unit {0})}
      → replace_head ping (record b { nodes = ns }) ns new ≡ done (b', r)
      → IsBucket P b'
  unfolding replace_head
  replace_head-IsBucket b [] v f p e = absurd (cc)
  replace_head-IsBucket b (head ∷ rest) v f p e = go (ping head.id) e
    where
      go :
          (t : Task (Option NodeError)) {b' : KBucket} {r : Result KBucketError (Unit {0})}
          → (t >>= λ answer. done (after_ping (record b { nodes = rest }) head new answer))
            ≡ done (b', r)
          → IsBucket P b'
      go (done answer) q =
          subst (IsBucket P) (task_fst q) (after_ping-IsBucket P b head new rest answer v f.1 p)
      go panicked q = absurd (cc)
      go blocked q = absurd (cc)

  -- If `add_nodeinfo` of a node with the property P returns, whatever became of the ping, a
  -- well-formed bucket is well formed again: its capacity is K, it has at most K nodes, all with
  -- different keys and with the property P.
  pub add_nodeinfo-IsBucket :
      (b : KBucket)
      → IsBucket P b
      → P new
      → {b' : KBucket} {r : Result KBucketError (Unit {0})} → add_nodeinfo ping new b ≡ done (b', r)
      → IsBucket P b'
  add_nodeinfo-IsBucket b v p e = elim (room-cases (length (erase new.id b.nodes)) b.capacity) [
    | inl room ↦ subst (IsBucket P) (task_fst (sym (add_room ping new b room) ∙ e)) (
        snoc-IsBucket P b (erase new.id b.nodes) new v.full_capacity
          (omega (arith, v.full_capacity)) (erase-Distinct new.id b.nodes v.distinct)
          (erase-absent new.id b.nodes v.distinct) (All-erase P new.id b.nodes v.members) p)
    | inr full ↦
        replace_head-IsBucket b (erase new.id b.nodes) (erased-IsBucket b v)
          (erase-absent new.id b.nodes v.distinct) p (sym (add_full ping new b full) ∙ e)
  ]

module _ (ping : Ping) (new : NodeInfo) (b : KBucket) where
  -- In a bucket with distinct nodes and room for the new one, the node goes to the tail without a
  -- ping, and afterwards a lookup finds it under its key and what it found before under every
  -- other.
  pub add_nodeinfo_room :
      Distinct b.nodes
      → length (erase new.id b.nodes) < b.capacity
      → (b' : KBucket) × (add_nodeinfo ping new b ≡ done (b', ok tt))
        × (b'.nodes ≡ erase new.id b.nodes ++ new ∷ [])
        × ((k : Key) → get_nodeinfo k b' ≡ (if new.id == k then some new else get_nodeinfo k b))
  unfolding get_nodeinfo
  add_nodeinfo_room d room = (
    record b { nodes = erase new.id b.nodes ++ new ∷ [] },
    add_room ping new b room,
    refl,
    λ k.
        ground
          (arith, find-append k (erase new.id b.nodes) (new ∷ []), find-erase new.id k b.nodes d),
  )

  -- If a full bucket does not know the new node, its oldest node is pinged: if it answers, it moves
  -- to the tail and the new node is not stored; if its answer is bad or late, the new node takes
  -- its place at the tail; and after any other failure of the ping the call fails and neither of
  -- the two is in the bucket.
  pub add_nodeinfo_full :
      (head : NodeInfo) (rest : List NodeInfo)
      → b.nodes ≡ head ∷ rest
      → b.capacity ≤ length b.nodes
      → get_nodeinfo new.id b ≡ none
      → (answer : Option NodeError) → ping head.id ≡ done answer
      → add_nodeinfo ping new b
        ≡ done (elim answer [
          | none ↦ (record b { nodes = rest ++ head ∷ [] }, ok tt)
          | some bad_response ↦ (record b { nodes = rest ++ new ∷ [] }, ok tt)
          | some response_timeout ↦ (record b { nodes = rest ++ new ∷ [] }, ok tt)
          | some _ ↦ (record b { nodes = rest }, err failed_to_add)
        ])
  unfolding get_nodeinfo replace_head after_ping
  add_nodeinfo_full head rest e c absent answer p =
      let same : erase new.id b.nodes ≡ head ∷ rest = erase_absent new.id b.nodes absent ∙ e in
      add_full ping new b (ground (arith, erase_absent new.id b.nodes absent))
      ∙ full (erase new.id b.nodes) same answer p
    where
      full :
          (ns : List NodeInfo)
          → ns ≡ head ∷ rest
          → (a : Option NodeError) → ping head.id ≡ done a
          → replace_head ping (record b { nodes = ns }) ns new
            ≡ done (elim a [
              | none ↦ (record b { nodes = rest ++ head ∷ [] }, ok tt)
              | some bad_response ↦ (record b { nodes = rest ++ new ∷ [] }, ok tt)
              | some response_timeout ↦ (record b { nodes = rest ++ new ∷ [] }, ok tt)
              | some _ ↦ (record b { nodes = rest }, err failed_to_add)
            ])
      full ns q none h = rw (q, h) refl
      full ns q (some bad_response) h = rw (q, h) refl
      full ns q (some response_timeout) h = rw (q, h) refl
      full ns q (some unable_to_send) h = rw (q, h) refl
      full ns q (some ping_missing_node) h = rw (q, h) refl
      full ns q (some routing_table_failed) h = rw (q, h) refl

  -- A ping that waits for ever takes the whole call with it.
  pub add_full_blocked :
      (head : NodeInfo) (rest : List NodeInfo)
      → b.nodes ≡ head ∷ rest
      → b.capacity ≤ length b.nodes
      → get_nodeinfo new.id b ≡ none
      → ping head.id ≡ blocked
      → add_nodeinfo ping new b ≡ blocked
  unfolding get_nodeinfo replace_head
  add_full_blocked head rest e c absent p =
      let same : erase new.id b.nodes ≡ head ∷ rest = erase_absent new.id b.nodes absent ∙ e in
      add_full ping new b (ground (arith, erase_absent new.id b.nodes absent))
      ∙ stuck (erase new.id b.nodes) same
    where
      stuck :
          (ns : List NodeInfo)
          → ns ≡ head ∷ rest
          → replace_head ping (record b { nodes = ns }) ns new ≡ blocked
      stuck ns q = rw (q, p) refl

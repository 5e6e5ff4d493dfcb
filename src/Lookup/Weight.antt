-- ===== src/Lookup/Weight.antt =====
-- How much is left to do in a lookup of src/core/lookup.rs, if all contacts are among given ones:
-- the entries that were not queried, and the contacts that are not in the buffer yet.
use rust_p2p_filesystem.Base.{
  ℕ, suc, ◌+◌, ◌≤◌, ◌<◌, ◌≡◌, refl, ap, Bool, true, false, not, ◌||◌, List, [], ◌∷◌, ◌++◌, keep,
  if◌then◌else◌, ◌==◌, beq_sym, arith, Bool-cases, inl, inr, length,
}
use rust_p2p_filesystem.Base.Sort.{sort, insert}
use rust_p2p_filesystem.Key.{Key, key_eq}
use rust_p2p_filesystem.Networking.NodeInfo.{NodeInfo, node_eq}
use rust_p2p_filesystem.Lookup.{LookupNodeInfo, fresh, mark_queried, mark_responded, contains}

unfoldable pub unqueried : List LookupNodeInfo → ℕ
unfolding keep
unqueried ns = length (keep (λ n. not n.queried) ns)

unfoldable pub missing : List NodeInfo → List LookupNodeInfo → ℕ
missing [] ns = 0
missing (u ∷ us) ns = if contains u ns then missing us ns else suc (missing us ns)

unfoldable pub weight : List NodeInfo → List LookupNodeInfo → ℕ
unfolding unqueried missing
weight us ns = unqueried ns + missing us ns

-- `universe.contains(node)`
abbrev pub mem_node : NodeInfo → List NodeInfo → Bool
mem_node n [] = false
mem_node n (u ∷ us) = u == n || mem_node n us

pub missing-cong :
    (us : List NodeInfo) (ns ms : List LookupNodeInfo)
    → ((u : NodeInfo) → contains u ns ≡ contains u ms)
    → missing us ns ≡ missing us ms
unfolding missing
missing-cong [] ns ms h = refl
missing-cong (u ∷ us) ns ms h = ground (arith, h u, missing-cong us ns ms h)

pub contains-mark_queried :
    (u : NodeInfo) (id : Key) (ns : List LookupNodeInfo)
    → contains u ns ≡ contains u (mark_queried id ns)
unfolding contains mark_queried
contains-mark_queried u id [] = refl
contains-mark_queried u id (n ∷ ns) = elim (Bool-cases (n.node_info.id == id)) [
  | inl e ↦ rw e (ap (λ t. n.node_info == u || t) (contains-mark_queried u id ns))
  | inr e ↦ rw e (ap (λ t. n.node_info == u || t) (contains-mark_queried u id ns))
]

contains-mark_responded :
    (u : NodeInfo) (id : Key) (ns : List LookupNodeInfo)
    → contains u ns ≡ contains u (mark_responded id ns)
unfolding contains mark_responded
contains-mark_responded u id [] = refl
contains-mark_responded u id (n ∷ ns) = elim (Bool-cases (n.node_info.id == id)) [
  | inl e ↦ rw e (ap (λ t. n.node_info == u || t) (contains-mark_responded u id ns))
  | inr e ↦ rw e (ap (λ t. n.node_info == u || t) (contains-mark_responded u id ns))
]

contains-insert :
    (le : LookupNodeInfo → LookupNodeInfo → Bool) (u : NodeInfo) (n : LookupNodeInfo)
    (ns : List LookupNodeInfo)
    → contains u (insert le n ns) ≡ contains u (n ∷ ns)
unfolding contains insert
contains-insert le u n [] = refl
contains-insert le u n (o ∷ ns) = ground (arith, contains-insert le u n ns)

contains-sort :
    (le : LookupNodeInfo → LookupNodeInfo → Bool) (u : NodeInfo) (ns : List LookupNodeInfo)
    → contains u ns ≡ contains u (sort le ns)
unfolding contains sort
contains-sort le u [] = refl
contains-sort le u (n ∷ ns) =
    ground (arith, contains-insert le u n (sort le ns), contains-sort le u ns)

unqueried-insert :
    (le : LookupNodeInfo → LookupNodeInfo → Bool) (n : LookupNodeInfo) (ns : List LookupNodeInfo)
    → unqueried (insert le n ns) ≡ unqueried (n ∷ ns)
unfolding unqueried insert keep
unqueried-insert le n [] = refl
unqueried-insert le n (o ∷ ns) = ground (arith, unqueried-insert le n ns)

unqueried-sort :
    (le : LookupNodeInfo → LookupNodeInfo → Bool) (ns : List LookupNodeInfo)
    → unqueried (sort le ns) ≡ unqueried ns
unfolding unqueried sort keep
unqueried-sort le [] = refl
unqueried-sort le (n ∷ ns) =
    ground (arith, unqueried-insert le n (sort le ns), unqueried-sort le ns)

pub unqueried-mark_queried-le :
    (id : Key) (ns : List LookupNodeInfo) → unqueried (mark_queried id ns) ≤ unqueried ns
unfolding unqueried mark_queried keep
unqueried-mark_queried-le id [] = omega arith
unqueried-mark_queried-le id (n ∷ ns) = ground (arith, unqueried-mark_queried-le id ns)

unqueried-mark_responded :
    (id : Key) (ns : List LookupNodeInfo) → unqueried (mark_responded id ns) ≡ unqueried ns
unfolding unqueried mark_responded keep
unqueried-mark_responded id [] = refl
unqueried-mark_responded id (n ∷ ns) = ground (arith, unqueried-mark_responded id ns)

pub weight-mark_queried-le :
    (us : List NodeInfo) (id : Key) (ns : List LookupNodeInfo)
    → weight us (mark_queried id ns) ≤ weight us ns
unfolding weight
weight-mark_queried-le us id ns = omega (
  arith,
  unqueried-mark_queried-le id ns,
  missing-cong us ns (mark_queried id ns) (λ u. contains-mark_queried u id ns),
)

pub weight-mark_responded :
    (us : List NodeInfo) (id : Key) (ns : List LookupNodeInfo)
    → weight us (mark_responded id ns) ≡ weight us ns
unfolding weight
weight-mark_responded us id ns = omega (
  arith,
  unqueried-mark_responded id ns,
  missing-cong us ns (mark_responded id ns) (λ u. contains-mark_responded u id ns),
)

pub weight-sort :
    (us : List NodeInfo) (le : LookupNodeInfo → LookupNodeInfo → Bool) (ns : List LookupNodeInfo)
    → weight us (sort le ns) ≡ weight us ns
unfolding weight
weight-sort us le ns =
    omega
      (arith, unqueried-sort le ns, missing-cong us ns (sort le ns) (λ u. contains-sort le u ns))

-- A new contact is one entry more and at least one missing contact less.
contains-append :
    (u node : NodeInfo) (ns : List LookupNodeInfo)
    → contains u (ns ++ fresh node ∷ []) ≡ (contains u ns || node == u)
unfolding contains fresh
contains-append u node [] = ground arith
contains-append u node (n ∷ ns) = ground (arith, contains-append u node ns)

pub unqueried-append :
    (node : NodeInfo) (ns : List LookupNodeInfo)
    → unqueried (ns ++ fresh node ∷ []) ≡ suc (unqueried ns)
unfolding unqueried fresh keep
unqueried-append node [] = refl
unqueried-append node (n ∷ ns) = ground (arith, unqueried-append node ns)

missing-append-le :
    (us : List NodeInfo) (node : NodeInfo) (ns : List LookupNodeInfo)
    → missing us (ns ++ fresh node ∷ []) ≤ missing us ns
unfolding missing
missing-append-le [] node ns = omega arith
missing-append-le (u ∷ us) node ns =
    ground (arith, contains-append u node ns, missing-append-le us node ns)

pub missing-append-lt :
    (us : List NodeInfo) (node : NodeInfo) (ns : List LookupNodeInfo)
    → mem_node node us ≡ true
    → contains node ns ≡ false
    → missing us (ns ++ fresh node ∷ []) < missing us ns
unfolding missing
missing-append-lt [] node ns h c = absurd (cc)
missing-append-lt (u ∷ us) node ns h c = elim (Bool-cases (u == node)) [
  | inl e ↦
      let same : u ≡ node = (node_eq.beq_iff u node).0 e in
      ground (
        arith,
        contains-append u node ns,
        ap (λ x. contains x ns) same,
        beq_sym node u,
        missing-append-le us node ns,
      )
  | inr e ↦
      ground (
        arith,
        contains-append u node ns,
        beq_sym node u,
        missing-append-lt us node ns (rw e at h) c,
      )
]

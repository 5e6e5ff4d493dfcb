-- ===== src/Routing/Table/Closest.antt =====
-- `get_n_closest` of src/routing/routing_table.rs on a well-formed table, and the reference of the
-- tests.
use mathlib.Core.List.{Perm, append_assoc}
use mathlib.Core.List.Perm
use rust_p2p_filesystem.Base.{
  ℕ, suc, ◌+◌, ◌<◌, ◌≤◌, ◌≡◌, refl, sym, ap, ◌∙◌, ◌≢◌, not, List, [], ◌∷◌, ◌++◌, arith, length,
  length-append, length-take, take, drop, take-append-drop, take-append_left, min, inl, inr, ◌⊎◌,
  keep, length-keep-le, lt→ltb,
}
use rust_p2p_filesystem.Base.Sort.{
  sort, sort-perm, sort-IsSorted, IsSorted-take, length-sort, length-perm, keep-sort, sorted_split,
  All-sort, IsSorted, IsOrder,
}
use rust_p2p_filesystem.Base.Outcome.{ok, err, done}
use rust_p2p_filesystem.Key.{Key, IsKey, distance, leading_zeros_in_distance}
use rust_p2p_filesystem.Key.Order.{by_key-IsOrder}
use rust_p2p_filesystem.Networking.NodeInfo.{NodeInfo}
use rust_p2p_filesystem.Routing.Table.{
  RoutingTable, empty, attempt_store_self, num_buckets, get_bucket_index, nodes_at, gather, start,
  pick, closer_le, get_n_closest, get_n_closest_slow, get_all_nodeinfos, all_nodes,
}
use rust_p2p_filesystem.Routing.Table.Gather.{gather-perm, gather_fast}
use rust_p2p_filesystem.Routing.Table.Invariant.{
  IsTable, get_bucket_index_other, get_bucket_index_own, get_bucket_index-ok,
}
use rust_p2p_filesystem.Routing.Table.OwnBucket.{shares, bucket-closer, keep-shares, all-IsKey}

closer-IsOrder : (key : Key) → IsOrder (closer_le key)
closer-IsOrder key = by_key-IsOrder (λ (n : NodeInfo). distance n.id key)

-- A choice of `n` nodes of a list, or of all if it has fewer, in order of distance.
pub record IsSelection (key : Key) (n : ℕ) (pool out : List NodeInfo) : Type 0 where
  pub sorted : IsSorted (closer_le key) out
  pub count : length out ≡ min n (length pool)
  pub others : List NodeInfo
  pub perm : Perm (out ++ others) pool

length-zero : (xs : List NodeInfo) → length xs ≡ 0 → xs ≡ []
length-zero [] h = refl
length-zero (x ∷ xs) h = absurd (omega arith)

pick_some :
    (key : Key) (n : ℕ) (r : List NodeInfo)
    → 0 < length r
    → pick key n r ≡ ok (take n (sort (closer_le key) r))
unfolding pick
pick_some key n [] h = absurd (omega arith)
pick_some key n (x ∷ xs) h = refl

pick_none : (key : Key) (n : ℕ) → pick key n [] ≡ err empty
unfolding pick
pick_none key n = refl

get_n_closest_at :
    (t : RoutingTable) (key : Key) (n i : ℕ)
    → get_bucket_index t key ≡ ok i
    → i < length t.buckets
    → get_n_closest t key n
      ≡ done (pick key n (gather t.buckets n (length t.buckets + i + 2) (start t.buckets i)).result)
unfolding get_n_closest
get_n_closest_at t key n i h lt = rw (h, get_n_closest, lt→ltb i (length t.buckets) lt) refl

taken : Key → ℕ → List NodeInfo → List NodeInfo
taken key n r = take n (sort (closer_le key) r)

-- A list of nodes of the table that has at least `n` of them, or all.
module _ (key : Key) (n : ℕ) (r rest pool : List NodeInfo) (p : Perm (r ++ rest) pool) where
  taken-IsSelection : ((n ≤ length r) ⊎ (rest ≡ [])) → IsSelection key n pool (taken key n r)
  unfolding taken
  taken-IsSelection enough = record {
    sorted =
        IsSorted-take (closer_le key) n _ (sort-IsSorted (closer_le key) (closer-IsOrder key) r);
    count = omega (
      arith,
      length-take n (sort (closer_le key) r),
      length-sort (closer_le key) r,
      length-append r rest,
      length-perm p,
      count_rest enough,
    );
    others = drop n (sort (closer_le key) r) ++ rest;
    perm =
        Perm.trans
          (rw
            (
              ← append_assoc (taken key n r) (drop n (sort (closer_le key) r)) rest,
              take-append-drop n (sort (closer_le key) r),
            )
            (Perm.append_right rest (sort-perm (closer_le key) r)))
          p;
  }
    where
      count_rest : ((n ≤ length r) ⊎ (rest ≡ [])) → (n ≤ length r) ⊎ (length rest ≡ 0)
      count_rest (inl e) = inl e
      count_rest (inr e) = inr (ap length e)

-- For a well-formed table, a key of K bytes other than the table's own and n > 0, `get_n_closest`
-- answers the error `Empty` exactly where no bucket has a node, and otherwise a non-empty list of
-- different entries of the table, as many as there are but at most n, in the order of their
-- distance to the key. In particular its loop ends and no index is out of range.
pub get_n_closest_lem :
    (t : RoutingTable) (key : Key) (n : ℕ)
    → IsTable t
    → IsKey key
    → key ≢ t.id
    → 0 < n
    → ((get_all_nodeinfos t ≡ []) × (get_n_closest t key n ≡ done (err empty)))
      ⊎ ((out : List NodeInfo) × (get_n_closest t key n ≡ done (ok out))
          × (0 < length out)
          × IsSelection key n (get_all_nodeinfos t) out)
unfolding get_all_nodeinfos taken
get_n_closest_lem t key n v w ne pos = go r refl
  where
    index :
        (i : ℕ) × (get_bucket_index t key ≡ ok i)
        × (leading_zeros_in_distance t.id key + suc i ≡ num_buckets)
        × (i < length t.buckets)
    index = get_bucket_index_other t key v w ne

    r : List NodeInfo
    r = (gather t.buckets n (length t.buckets + index.0 + 2) (start t.buckets index.0)).result

    gathered :
        (rest : List NodeInfo) × Perm (r ++ rest) (all_nodes t.buckets)
        × ((n ≤ length r) ⊎ (rest ≡ []))
    gathered = gather-perm t.buckets n index.0 index.3

    runs : get_n_closest t key n ≡ done (pick key n r)
    runs = get_n_closest_at t key n index.0 index.1 index.3

    none_left :
        (rest : List NodeInfo)
        → Perm ([] ++ rest) (all_nodes t.buckets)
        → ((n ≤ 0) ⊎ (rest ≡ []))
        → all_nodes t.buckets ≡ []
    none_left rest p (inl h) = absurd (omega arith)
    none_left rest p (inr h) =
        length-zero (all_nodes t.buckets) (omega (arith, length-perm p, ap length h))

    go :
        (xs : List NodeInfo)
        → r ≡ xs
        → ((all_nodes t.buckets ≡ []) × (get_n_closest t key n ≡ done (err empty)))
          ⊎ ((out : List NodeInfo) × (get_n_closest t key n ≡ done (ok out))
              × (0 < length out)
              × IsSelection key n (all_nodes t.buckets) out)
    go [] e = inl (
      none_left gathered.0 (rw e at gathered.1) (rw e at gathered.2),
      runs ∙ rw e (ap done (pick_none key n)),
    )
    go (x ∷ xs) e =
        let chosen =
          taken-IsSelection key n r gathered.0 (all_nodes t.buckets) gathered.1 gathered.2 in
        inr (
          taken key n r,
          runs ∙ ap done (pick_some key n r (omega (arith, ap length e))),
          omega (
            arith,
            length-take n (sort (closer_le key) r),
            length-sort (closer_le key) r,
            ap length e,
          ),
          chosen,
        )

-- The own key has no bucket, so that nothing is ever found near it.
pub get_n_closest_own :
    (t : RoutingTable) (n : ℕ) → IsKey t.id → get_n_closest t t.id n ≡ done (err attempt_store_self)
unfolding get_n_closest
get_n_closest_own t n v = rw (get_bucket_index_own t v, get_n_closest) refl

-- In a well-formed table, for a key of K bytes whose bucket has at least n > 0 nodes,
-- `get_n_closest` answers exactly what sorting all nodes of the table answers: the n nearest of the
-- whole table.
pub get_n_closest-eq-slow :
    (t : RoutingTable) (key : Key) (n i : ℕ)
    → IsTable t
    → IsKey key
    → get_bucket_index t key ≡ ok i
    → 0 < n
    → n ≤ length (nodes_at t.buckets i)
    → get_n_closest t key n ≡ done (get_n_closest_slow t key n)
unfolding get_n_closest_slow
get_n_closest-eq-slow t key n i v w h pos enough =
    get_n_closest_at t key n i h in_range
    ∙ ap (λ r. done (pick key n r)) fast
    ∙ ap done (pick_some key n own (omega arith))
    ∙ ap (λ xs. done (ok xs)) (sym sorted_prefix)
    ∙ ap done (sym (pick_some key n everything has_some))
  where
    own : List NodeInfo
    own = nodes_at t.buckets i

    everything : List NodeInfo
    everything = all_nodes t.buckets

    at_i : leading_zeros_in_distance t.id key + suc i ≡ num_buckets
    at_i = get_bucket_index-ok t key i h

    in_range : i < length t.buckets
    in_range = omega (arith, at_i, v.number)

    fast : (gather t.buckets n (length t.buckets + i + 2) (start t.buckets i)).result ≡ own
    fast =
        let more : length t.buckets + i + 2 ≡ suc (length t.buckets + i + 1) = omega arith in
        ap (λ f. (gather t.buckets n f (start t.buckets i)).result) more
        ∙ gather_fast t.buckets n (length t.buckets + i + 1) i enough

    kept : keep (shares t.id key) everything ≡ own
    kept = keep-shares t.id key v.own w i at_i 0 i t.buckets (omega arith) v.filled

    has_some : 0 < length everything
    has_some = omega (arith, length-keep-le (shares t.id key) everything, ap length kept)

    split :
        sort (closer_le key) everything
        ≡ sort (closer_le key) own
          ++ keep (λ n. not (shares t.id key n)) (sort (closer_le key) everything)
    split =
        sorted_split (closer_le key) (closer-IsOrder key) (λ n. IsKey n.id) (shares t.id key)
          (sort (closer_le key) everything)
          (λ x y vx vy px py. bucket-closer t.id key v.own w x y vx vy (omega (arith, at_i)) px py)
          (All-sort (closer_le key) (λ n. IsKey n.id) everything
            (all-IsKey t.id 0 t.buckets v.filled))
          (sort-IsSorted (closer_le key) (closer-IsOrder key) everything)
        ∙ ap (λ xs. xs ++ keep (λ n. not (shares t.id key n)) (sort (closer_le key) everything))
            (keep-sort (closer_le key) (closer-IsOrder key) (shares t.id key) everything
              ∙ ap (sort (closer_le key)) kept)

    sorted_prefix : take n (sort (closer_le key) everything) ≡ take n (sort (closer_le key) own)
    sorted_prefix =
        ap (take n) split
        ∙ take-append_left n (sort (closer_le key) own)
            (keep (λ n. not (shares t.id key n)) (sort (closer_le key) everything))
            (omega (arith, length-sort (closer_le key) own))

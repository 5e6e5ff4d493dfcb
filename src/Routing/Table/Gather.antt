-- ===== src/Routing/Table/Gather.antt =====
-- The loop of `get_n_closest` (src/routing/routing_table.rs): its end, and the buckets that it has
-- gathered.
use mathlib.Core.List.{Perm, perm_append_comm, append-nil, append_assoc}
use mathlib.Core.List.Perm
use rust_p2p_filesystem.Base.{
  ℕ, zero, suc, ◌+◌, ◌<◌, ◌≤◌, ◌≡◌, refl, sym, ap, ◌∙◌, true, false, ◌&&◌, List, [], ◌∷◌, ◌++◌,
  arith, ltb, length, inl, inr, ◌⊎◌, Bool-cases, ltb→lt, ℕ_discrete,
}
use rust_p2p_filesystem.Networking.NodeInfo.{NodeInfo}
use rust_p2p_filesystem.Routing.KBucket.{KBucket}
use rust_p2p_filesystem.Routing.Table.{
  Search, nodes_at, take_up, drain, take_down, round, gather, start, all_nodes,
}
use rust_p2p_filesystem.Routing.Table.Round.{measure, IsExhausted, round-measure}

-- The nodes of the buckets below an index.
below : List KBucket → ℕ → List NodeInfo
below bs zero = []
below bs (suc i) = below bs i ++ nodes_at bs i

below-cons :
    (b : KBucket) (bs : List KBucket) (i : ℕ) → below (b ∷ bs) (suc i) ≡ b.nodes ++ below bs i
unfolding below nodes_at
below-cons b bs zero = sym (append-nil b.nodes)
below-cons b bs (suc i) =
    ap (λ t. t ++ nodes_at bs i) (below-cons b bs i)
    ∙ append_assoc b.nodes (below bs i) (nodes_at bs i)

below-length : (bs : List KBucket) → below bs (length bs) ≡ all_nodes bs
unfolding all_nodes below
below-length [] = refl
below-length (b ∷ bs) =
    unfold below in below-cons b bs (length bs) ∙ ap (λ t. b.nodes ++ t) (below-length bs)

-- Together with the nodes below the result is all below the upper index.
record IsRun (bs : List KBucket) (s : Search) : Type 0 where
  in_range : s.up ≤ length bs
  ordered : s.down ≤ s.up
  run : Perm (below bs s.down ++ s.result) (below bs s.up)

module _ (bs : List KBucket) where
  -- A bucket moves from the nodes below to the result.
  down_perm :
      (d : ℕ) (result us : List NodeInfo)
      → Perm (below bs (suc d) ++ result) us
      → Perm (below bs d ++ (result ++ nodes_at bs d)) us
  unfolding below
  down_perm d result us p =
      Perm.trans (Perm.append_left (below bs d) (perm_append_comm result (nodes_at bs d)))
        (rw (← append_assoc (below bs d) (nodes_at bs d) result) p)

  drain-run :
      (got_u got_d : ℕ) (result : List NodeInfo) (d : ℕ) (us : List NodeInfo)
      → Perm (below bs d ++ result) us
      → Perm (below bs (drain bs got_u got_d result d).1 ++ (drain bs got_u got_d result d).0) us
        × ((drain bs got_u got_d result d).1 ≤ d)
  unfolding drain
  drain-run got_u got_d result zero us p = (p, omega arith)
  drain-run got_u got_d result (suc d) us p = elim (Bool-cases (ltb got_d got_u)) [
    | inl h ↦
        let rest =
          drain-run got_u (got_d + length (nodes_at bs d)) (result ++ nodes_at bs d) d us
            (down_perm d result us p) in
        rw h (rest.0, omega (arith, rest.1))
    | inr h ↦ rw h (p, omega arith)
  ]

  one_more : (i : ℕ) → below bs (i + 1) ≡ below bs i ++ nodes_at bs i
  unfolding below
  one_more i = let e : i + 1 ≡ suc i = omega arith in ap (below bs) e

  take_up-IsRun : (s : Search) → IsRun bs s → IsRun bs (take_up bs s).0
  unfolding take_up
  take_up-IsRun s v = elim (Bool-cases (ltb s.up (length bs))) [
    | inl h ↦ rw h (record {
      in_range = omega (arith, ltb→lt s.up (length bs) h);
      ordered = omega (arith, v.ordered);
      run =
          rw (one_more s.up, ← append_assoc (below bs s.down) s.result (nodes_at bs s.up))
            (Perm.append_right (nodes_at bs s.up) v.run);
    })
    | inr h ↦ rw h v
  ]

  take_down-IsRun :
      (got_u : ℕ) (s : Search) (d : ℕ) → s.down ≡ d → IsRun bs s → IsRun bs (take_down bs got_u s d)
  unfolding take_down
  take_down-IsRun got_u s zero e v = v
  take_down-IsRun got_u s (suc d) e v =
      let p : Perm (below bs (suc d) ++ s.result) (below bs s.up) = rw e at v.run in
      let drained =
        drain-run got_u (length (nodes_at bs d)) (s.result ++ nodes_at bs d) d (below bs s.up)
          (down_perm d s.result (below bs s.up) p) in
      record {
        in_range = v.in_range;
        ordered = omega (arith, drained.1, v.ordered);
        run = drained.0;
      }

  round-IsRun : (s : Search) → IsRun bs s → IsRun bs (round bs s)
  unfolding round
  round-IsRun s v =
      let s' = (take_up bs (record s { taken_some = false })).0 in
      take_down-IsRun (take_up bs (record s { taken_some = false })).1 s' s'.down refl (
        take_up-IsRun (record s { taken_some = false })
          (record { in_range = v.in_range; ordered = v.ordered; run = v.run }))

  -- Enough nodes, or no bucket left.
  abbrev IsDone : ℕ → Search → Type 0
  IsDone n s = (n ≤ length s.result) ⊎ IsExhausted bs s

  gather_next :
      (n fuel : ℕ) (s : Search)
      → ltb (length s.result) n ≡ true
      → s.taken_some ≡ true
      → gather bs n (suc fuel) s ≡ gather bs n fuel (round bs s)
  unfolding gather
  gather_next n fuel s h t = rw (h, t, gather) refl

  gather_stop :
      (n fuel : ℕ) (s : Search)
      → (ltb (length s.result) n && s.taken_some) ≡ false
      → gather bs n (suc fuel) s ≡ s
  unfolding gather
  gather_stop n fuel s h = rw (h, gather) refl

  gather-lem :
      (n fuel : ℕ) (s : Search)
      → IsRun bs s
      → ((s.taken_some ≡ true) × (measure bs s + 2 ≤ fuel))
        ⊎ ((s.taken_some ≡ false) × IsExhausted bs s × (1 ≤ fuel))
      → IsRun bs (gather bs n fuel s) × IsDone n (gather bs n fuel s)
  unfolding gather
  gather-lem n zero s v (inl h) = absurd (omega arith)
  gather-lem n zero s v (inr h) = absurd (omega arith)
  gather-lem n (suc fuel) s v (inl (t, m)) = elim (Bool-cases (ltb (length s.result) n)) [
    | inl more ↦
        rw (gather_next n fuel s more t)
          (gather-lem n fuel (round bs s) (round-IsRun s v) (next (round-measure bs s v.in_range)))
    | inr enough ↦ rw (gather_stop n fuel s (rw enough refl)) (v, inl (ground arith))
  ]
    where
      next :
          ((round bs s).taken_some ≡ true) × (measure bs (round bs s) < measure bs s)
            ⊎ ((round bs s).taken_some ≡ false) × IsExhausted bs (round bs s)
          → ((round bs s).taken_some ≡ true) × (measure bs (round bs s) + 2 ≤ fuel)
            ⊎ ((round bs s).taken_some ≡ false) × IsExhausted bs (round bs s) × (1 ≤ fuel)
      next (inl h) = inl (h.0, omega (arith, h.1, m))
      next (inr h) = inr (h.0, h.1, omega arith)
  gather-lem n (suc fuel) s v (inr (t, e, m)) = rw (gather_stop n fuel s (ground arith)) (v, inr e)

  start-IsRun : (i : ℕ) → i < length bs → IsRun bs (start bs i)
  unfolding start
  start-IsRun i h = record {
    in_range = omega arith;
    ordered = omega arith;
    run = rw (one_more i) (Perm.refl _);
  }

  -- The loop ends within its fuel, by its test, with a run of neighbouring buckets.
  gather-start :
      (n i : ℕ)
      → i < length bs
      → let s = gather bs n (length bs + i + 2) (start bs i) in IsRun bs s × IsDone n s
  unfolding start measure
  gather-start n i h =
      gather-lem n (length bs + i + 2) (start bs i) (start-IsRun i h) (inl (refl, omega arith))

  below-split : (m i : ℕ) → i ≤ m → (rest : List NodeInfo) × (below bs m ≡ below bs i ++ rest)
  unfolding below
  below-split zero i h = let e : i ≡ 0 = omega arith in ([], rw e refl)
  below-split (suc m) i h = elim (ℕ_discrete i (suc m)) [
    | yes e ↦ ([], rw e (sym (append-nil (below bs (suc m)))))
    | no ne ↦
        let lower = below-split m i (omega arith) in
        (
          lower.0 ++ nodes_at bs m,
          ap (λ t. t ++ nodes_at bs m) lower.1 ∙ append_assoc (below bs i) lower.0 (nodes_at bs m),
        )
  ]

  -- A run and the nodes on both sides of it are all nodes.
  IsRun-perm :
      (s : Search) → IsRun bs s → (rest : List NodeInfo) × Perm (s.result ++ rest) (all_nodes bs)
  IsRun-perm s v =
      let upper = below-split (length bs) s.up v.in_range in
      (
        below bs s.down ++ upper.0,
        rw (← append_assoc s.result (below bs s.down) upper.0, ← below-length bs, upper.1)
            (Perm.append_right upper.0
              (Perm.trans (perm_append_comm s.result (below bs s.down)) v.run)),
      )

  exhausted-perm : (s : Search) → IsRun bs s → IsExhausted bs s → Perm s.result (all_nodes bs)
  unfolding below
  exhausted-perm s v e =
      let r : Perm (below bs 0 ++ s.result) (below bs (length bs)) = rw (e.0, e.1) at v.run in
      rw (← below-length bs) r

  -- What is gathered are nodes of the table, each as often as there; and they are enough, or all.
  pub gather-perm :
      (n i : ℕ)
      → i < length bs
      → let r = (gather bs n (length bs + i + 2) (start bs i)).result in
        (rest : List NodeInfo) × Perm (r ++ rest) (all_nodes bs) × ((n ≤ length r) ⊎ (rest ≡ []))
  gather-perm n i h = go (gather-start n i h).0 (gather-start n i h).1
    where
      final : Search
      final = gather bs n (length bs + i + 2) (start bs i)

      go :
          IsRun bs final
          → IsDone n final
          → (rest : List NodeInfo) × Perm (final.result ++ rest) (all_nodes bs)
            × ((n ≤ length final.result) ⊎ (rest ≡ []))
      go v (inl enough) = ((IsRun-perm final v).0, (IsRun-perm final v).1, inl enough)
      go v (inr e) = ([], rw (append-nil final.result) (exhausted-perm final v e), inr refl)

  -- If the bucket of the key has enough nodes, they are the result.
  pub gather_fast :
      (n fuel i : ℕ)
      → n ≤ length (nodes_at bs i)
      → (gather bs n (suc fuel) (start bs i)).result ≡ nodes_at bs i
  unfolding start
  gather_fast n fuel i h = ap (λ t. t.result) (gather_stop n fuel (start bs i) (ground arith))

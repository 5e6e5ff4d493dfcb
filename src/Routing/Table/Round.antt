-- ===== src/Routing/Table/Round.antt =====
-- A round of the loop of `get_n_closest` (src/routing/routing_table.rs) and how much it leaves.
use rust_p2p_filesystem.Base.{
  ℕ, zero, suc, ◌+◌, ◌<◌, ◌≤◌, ◌≡◌, refl, true, false, List, ◌++◌, arith, length, inl, inr, ◌⊎◌,
  ◌-◌,
}
use rust_p2p_filesystem.Networking.NodeInfo.{NodeInfo}
use rust_p2p_filesystem.Routing.KBucket.{KBucket}
use rust_p2p_filesystem.Routing.Table.{Search, nodes_at, take_up, drain, take_down, round}

module _ (bs : List KBucket) where
  -- What is left on both sides.
  unfoldable pub measure : Search → ℕ
  measure s = length bs - s.up + s.down

  abbrev pub IsExhausted : Search → Type 0
  IsExhausted s = (s.down ≡ 0) × (s.up ≡ length bs)

  take_up-measure :
      (s : Search)
      → s.up ≤ length bs
      → s.taken_some ≡ false
      → ((take_up bs s).0.down ≡ s.down)
        × (((take_up bs s).0.taken_some ≡ true) × (measure (take_up bs s).0 < measure s)
            ⊎ ((take_up bs s).0.taken_some ≡ false)
              × (s.up ≡ length bs)
              × ((take_up bs s).0.up ≡ length bs))
  unfolding take_up measure
  take_up-measure s r e = ground arith

  drain-le :
      (got_u got_d : ℕ) (result : List NodeInfo) (d : ℕ) → (drain bs got_u got_d result d).1 ≤ d
  unfolding drain
  drain-le got_u got_d result zero = omega arith
  drain-le got_u got_d result (suc d) =
      ground (arith, drain-le got_u (got_d + length (nodes_at bs d)) (result ++ nodes_at bs d) d)

  take_down-measure :
      (got_u : ℕ) (s : Search) (d : ℕ)
      → s.down ≡ d
      → ((take_down bs got_u s d).taken_some ≡ true)
          × (measure (take_down bs got_u s d) < measure s)
        ⊎ (d ≡ 0) × (take_down bs got_u s d ≡ s)
  unfolding take_down measure
  take_down-measure got_u s zero e = inr (refl, refl)
  take_down-measure got_u s (suc d) e =
      inl
        (refl, omega (arith, drain-le got_u (length (nodes_at bs d)) (s.result ++ nodes_at bs d) d))

  both_sides :
      (s s' t : Search)
      → s'.down ≡ s.down
      → (((s'.taken_some ≡ true) × (measure s' < measure s))
          ⊎ ((s'.taken_some ≡ false) × (s.up ≡ length bs) × (s'.up ≡ length bs)))
      → ((t.taken_some ≡ true) × (measure t < measure s') ⊎ (s'.down ≡ 0) × (t ≡ s'))
      → ((t.taken_some ≡ true) × (measure t < measure s)) ⊎ ((t.taken_some ≡ false) × IsExhausted t)
  unfolding measure
  both_sides s s' t e (inl up) (inl down) = inl (down.0, omega (arith, up.1, down.1))
  both_sides s s' t e (inr up) (inl down) = inl (down.0, omega (arith, up.1, up.2, down.1))
  both_sides s s' t e (inl up) (inr down) = rw (down.1) (inl up)
  both_sides s s' t e (inr up) (inr down) = rw (down.1) (inr (up.0, (down.0, up.2)))

  -- A round that takes something leaves less; one that takes nothing had nothing left.
  pub round-measure :
      (s : Search)
      → s.up ≤ length bs
      → ((round bs s).taken_some ≡ true) × (measure (round bs s) < measure s)
        ⊎ ((round bs s).taken_some ≡ false) × IsExhausted (round bs s)
  unfolding round measure
  round-measure s r =
      let s0 : Search = record s { taken_some = false } in
      let up = take_up-measure s0 r refl in
      both_sides s0 (take_up bs s0).0 (round bs s) up.0 up.1
        (take_down-measure (take_up bs s0).1 (take_up bs s0).0 (take_up bs s0).0.down refl)

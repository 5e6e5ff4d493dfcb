-- ===== src/Node/Batches.antt =====
-- The chunk keys in the result of `find_storers_parallel` of src/core/node.rs.
use rust_p2p_filesystem.Base.{
  ℕ, zero, suc, ◌≡◌, refl, subst, ◌∙◌, ap, ap₂, ◌≤◌, List, [], ◌∷◌, ◌++◌, Option, none, some, map,
  take, drop, take-append-drop, arith, length,
}
use rust_p2p_filesystem.Constants.{alpha}
use rust_p2p_filesystem.Key.{Key}
use rust_p2p_filesystem.Networking.NodeInfo.{NodeInfo}
use rust_p2p_filesystem.Node.Lookups.{find_batch, collect, find_batches}

abbrev keys_of : List (Key × NodeInfo) → List Key
keys_of = map λ (p : Key × NodeInfo). p.0

abbrev asked_keys : List (Key × Option NodeInfo) → List Key
asked_keys = map λ (p : Key × Option NodeInfo). p.0

-- The value of a successful result.
abbrev HasKeys : List Key → Option (List (Key × NodeInfo)) → Type 0
HasKeys ks none = Unit {0}
HasKeys ks (some pairs) = keys_of pairs ≡ ks

map-append : (xs ys : List (Key × NodeInfo)) → keys_of (xs ++ ys) ≡ keys_of xs ++ keys_of ys
map-append [] ys = refl
map-append (x ∷ xs) ys = ap (◌∷◌ x.0) (map-append xs ys)

collect-HasKeys :
    (found : List (Key × Option NodeInfo)) → HasKeys (asked_keys found) (collect found)
unfolding collect
collect-HasKeys [] = refl
collect-HasKeys ((k, none) ∷ rest) = tt
collect-HasKeys ((k, some storer) ∷ rest) = go (collect rest) refl (collect-HasKeys rest)
  where
    go :
        (o : Option (List (Key × NodeInfo)))
        → collect rest ≡ o
        → HasKeys (asked_keys rest) o
        → HasKeys (k ∷ asked_keys rest) (collect ((k, some storer) ∷ rest))
    go none e h = rw (e, collect) tt
    go (some pairs) e h = rw (e, collect) (ap (◌∷◌ k) h)

length-drop-le : (n : ℕ) (ks : List Key) → length (drop n ks) ≤ length ks
unfolding drop
length-drop-le zero ks = omega arith
length-drop-le (suc n) [] = omega arith
length-drop-le (suc n) (k ∷ ks) = omega (arith, length-drop-le n ks)

shorter : (k : Key) (ks : List Key) → length (drop alpha (k ∷ ks)) ≤ length ks
unfolding drop
shorter k ks = length-drop-le 2 ks

module _ {W : Type 0} (find_storer : Key → W → Option NodeInfo × W) where
  batch_keys : (ks : List Key) (w : W) → asked_keys (find_batch find_storer ks w).0 ≡ ks
  unfolding find_batch
  batch_keys [] w = refl
  batch_keys (k ∷ ks) w = ap (◌∷◌ k) (batch_keys ks (find_storer k w).1)

  batches-HasKeys :
      (fuel : ℕ) (ks : List Key) (w : W)
      → length ks ≤ fuel
      → HasKeys ks (find_batches find_storer fuel ks w).0
  unfolding find_batches
  batches-HasKeys zero [] w h = refl
  batches-HasKeys zero (k ∷ ks) w h = absurd (omega arith)
  batches-HasKeys (suc fuel) [] w h = refl
  batches-HasKeys (suc fuel) (k ∷ ks) w h =
      go (collect batch.0) refl
        (rw (batch_keys (take alpha (k ∷ ks)) w) at (collect-HasKeys batch.0))
        (find_batches find_storer fuel (drop alpha (k ∷ ks)) batch.1).0 refl
        (batches-HasKeys fuel (drop alpha (k ∷ ks)) batch.1 (omega (arith, shorter k ks)))
    where
      batch : List (Key × Option NodeInfo) × W
      batch = find_batch find_storer (take alpha (k ∷ ks)) w

      go :
          (o : Option (List (Key × NodeInfo)))
          → collect batch.0 ≡ o
          → HasKeys (take alpha (k ∷ ks)) o
          → (p : Option (List (Key × NodeInfo)))
          → (find_batches find_storer fuel (drop alpha (k ∷ ks)) batch.1).0 ≡ p
          → HasKeys (drop alpha (k ∷ ks)) p
          → HasKeys (k ∷ ks) (find_batches find_storer (suc fuel) (k ∷ ks) w).0
      go none e a p f b = rw (e, find_batches) tt
      go (some pairs) e a none f b = rw (e, f, find_batches) tt
      go (some pairs) e a (some more) f b =
          rw (e, f, find_batches)
            (map-append pairs more ∙ ap₂ ◌++◌ a b ∙ take-append-drop alpha (k ∷ ks))

  pairs_keys :
      (ks : List Key) (o : Option (List (Key × NodeInfo))) (pairs : List (Key × NodeInfo))
      → HasKeys ks o
      → o ≡ some pairs
      → keys_of pairs ≡ ks
  pairs_keys ks o pairs h e = subst (HasKeys ks) e h

  -- If `find_storers_parallel` succeeds, with at least as many batches allowed as there are keys,
  -- its pairs have the given chunk keys, all of them and in their order.
  pub find_batches_keys :
      (fuel : ℕ) (ks : List Key) (w : W) (pairs : List (Key × NodeInfo))
      → length ks ≤ fuel
      → (find_batches find_storer fuel ks w).0 ≡ some pairs
      → map (λ (p : Key × NodeInfo). p.0) pairs ≡ ks
  find_batches_keys fuel ks w pairs h e =
      pairs_keys ks (find_batches find_storer fuel ks w).0 pairs (batches-HasKeys fuel ks w h) e

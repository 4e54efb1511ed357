-- ===== src/Follows/Shards.antt =====
-- The sharded follower totals (frontend/convex/follows.ts, `adjustShard`).
use bling.Prelude.{
  ℕ, zero, suc, ◌+◌, ◌-◌, ◌%◌, ◌≤◌, ◌<◌, ◌≡◌, inl, inr, refl, ◌&&◌, none, some, arith, ◌==◌, ltb,
  if◌then◌else◌, Bool-cases, Option-cases, subst, sym,
}
use bling.Store.Interface.{Convex}
use bling.Store.Queries.{
  Table, get, get-first, first-none, insert, replace, get-insert, get-replace,
}
use bling.Store.Totals.{total, total-insert, total-replace, total_zero}
use bling.Schema.Docs.{FollowerShard}
use bling.Follows.{shard_count, shard_at, add_to_shard, take_from_shard}

module _ ⦃c : Convex⦄ where
  -- The followers of a creator by the shards.
  abbrev pub shard_total : (creator : ℕ) → Table FollowerShard → ℕ
  shard_total creator t = total (λ s. s.creator_id == creator) (λ s. s.count) t

  -- Every shard is one of the 64, and there once for each creator.
  pub record AreShards (t : Table FollowerShard) : Type 0 where
    pub in_range : (i : ℕ) (s : FollowerShard) → get t i ≡ some s → s.shard < shard_count
    pub once :
        (i j : ℕ) (s u : FollowerShard)
        → get t i ≡ some s
        → get t j ≡ some u
        → s.creator_id ≡ u.creator_id
        → s.shard ≡ u.shard
        → i ≡ j

  AreShards-replace :
      (i : ℕ) (d e : FollowerShard) (t : Table FollowerShard)
      → get t i ≡ some e
      → d.creator_id ≡ e.creator_id
      → d.shard ≡ e.shard
      → AreShards t
      → AreShards (replace i d t)
  AreShards-replace i d e t at_i same shard h = record {
    in_range =
        λ j s x. ground (arith, get-replace i d e t j at_i, h.in_range j s, h.in_range i e at_i);
    once = λ j k s u x y p q. ground (
      arith,
      get-replace i d e t j at_i,
      get-replace i d e t k at_i,
      h.once j k s u,
      h.once i k e u,
      h.once j i s e,
    );
  }

  AreShards-insert :
      (d : FollowerShard) (t : Table FollowerShard)
      → d.shard < shard_count
      → shard_at d.creator_id d.shard t ≡ none
      → AreShards t
      → AreShards (insert d t)
  unfolding shard_at
  AreShards-insert d t small free h = record {
    in_range = λ j s x. ground (arith, get-insert d t j, h.in_range j s);
    once = λ j k s u x y p q. ground (
      arith,
      get-insert d t j,
      get-insert d t k,
      h.once j k s u,
      first-none (λ s. s.creator_id == d.creator_id && s.shard == d.shard) t j s free,
      first-none (λ s. s.creator_id == d.creator_id && s.shard == d.shard) t k u free,
    );
  }

  -- The document that the search for a shard finds.
  shard_at-found :
      (creator shard : ℕ) (t : Table FollowerShard) (i : ℕ) (s : FollowerShard)
      → shard_at creator shard t ≡ some (i, s)
      → (get t i ≡ some s) × (s.creator_id ≡ creator) × (s.shard ≡ shard)
  unfolding shard_at
  shard_at-found creator shard t i s found =
      let (at_i, hit) =
        get-first (λ s. s.creator_id == creator && s.shard == shard) t (i, s) found in
      (at_i, ground (arith, hit), ground (arith, hit))

  pub add_to_shard-AreShards :
      (creator start : ℕ) (t : Table FollowerShard)
      → start < shard_count
      → AreShards t
      → AreShards (add_to_shard creator start t)
  unfolding add_to_shard
  add_to_shard-AreShards creator start t small h = elim (Option-cases (shard_at creator start t)) [
    | inl free ↦ subst AreShards (ground arith) (
        AreShards-insert (record { creator_id = creator; shard = start; count = 1 }) t small free h)
    | inr ((i, s), found) ↦ subst AreShards (ground arith) (
        AreShards-replace i (record s { count = s.count + 1 }) s t
          (shard_at-found creator start t i s found).0 refl refl h)
  ]

  -- A new follower is counted once, for the creator followed alone.
  pub add_to_shard-total :
      (creator start : ℕ) (t : Table FollowerShard) (other : ℕ)
      → shard_total other (add_to_shard creator start t)
        ≡ shard_total other t + (if other == creator then 1 else 0)
  unfolding add_to_shard
  add_to_shard-total creator start t other = elim (Option-cases (shard_at creator start t)) [
    | inl free ↦ ground (
      arith,
      total-insert (λ s. s.creator_id == other) (λ s. s.count)
          (record { creator_id = creator; shard = start; count = 1 }) t,
    )
    | inr ((i, s), found) ↦ ground (
      arith,
      shard_at-found creator start t i s found,
      total-replace (λ s. s.creator_id == other) (λ s. s.count) i (record s { count = s.count + 1 })
          s t,
    )
  ]

  -- What a search of the shards for one to take from comes to: a shard with one follower less, or
  -- every shard looked at is empty.
  pub data Taken (creator start left : ℕ) (t : Table FollowerShard)
      : Table FollowerShard → Type 0 where
    took :
        (i : ℕ) (s : FollowerShard)
        → get t i ≡ some s
        → s.creator_id ≡ creator
        → 0 < s.count
        → Taken creator start left t (replace i (record s { count = s.count - 1 }) t)
    all_empty :
        ((n i : ℕ) (s : FollowerShard)
          → n < shard_count
          → shard_count ≤ n + left
          → shard_at creator ((start + n) % shard_count) t ≡ some (i, s)
          → s.count ≡ 0)
        → Taken creator start left t t

  Taken-later :
      (creator start left : ℕ) (t t' : Table FollowerShard)
      → suc left ≤ shard_count
      → ((i : ℕ) (s : FollowerShard)
          → shard_at creator ((start + (shard_count - suc left)) % shard_count) t ≡ some (i, s)
          → s.count ≡ 0)
      → Taken creator start left t t'
      → Taken creator start (suc left) t t'
  Taken-later creator start left t _ few empty (took i s at_i same some_left) =
      took i s at_i same some_left
  Taken-later creator start left t _ few empty (all_empty rest) =
      all_empty (λ n i s small late found. elim (Bool-cases (n == shard_count - suc left)) [
        | inl here ↦
            let n_here : n ≡ shard_count - suc left = ground arith in
            empty i s (
              subst (λ m. shard_at creator ((start + m) % shard_count) t ≡ some (i, s)) n_here
                found)
        | inr further ↦ rest n i s small (ground arith) found
      ])

  take_from_shard-Taken :
      (creator start left : ℕ) (t : Table FollowerShard)
      → left ≤ shard_count
      → Taken creator start left t (take_from_shard creator start left t)
  unfolding take_from_shard
  take_from_shard-Taken creator start zero t few = all_empty (λ n i s small late. ground arith)
  take_from_shard-Taken creator start (suc left) t few =
      let tried = (start + (shard_count - suc left)) % shard_count in
      let later = take_from_shard-Taken creator start left t (ground arith) in
      elim (Option-cases (shard_at creator tried t)) [
        | inl none_there ↦ subst (Taken creator start (suc left) t) (ground arith) (
            Taken-later creator start left t (take_from_shard creator start left t) few
              (λ i s found. ground arith) later)
        | inr ((i, s), found) ↦ elim (Bool-cases (ltb 0 s.count)) [
          | inl some_left ↦
              let (at_i, same, _) = shard_at-found creator tried t i s found in
              subst (Taken creator start (suc left) t) (ground arith)
                (took i s at_i same (ground arith))
          | inr empty ↦ subst (Taken creator start (suc left) t) (ground arith) (
              Taken-later creator start left t (take_from_shard creator start left t) few
                (λ j u also. ground arith) later)
        ]
      ]

  -- The place of a shard in a search from `start`.
  reached :
      (start shard : ℕ)
      → start < shard_count
      → shard < shard_count
      → (start + (shard + (shard_count - start)) % shard_count) % shard_count ≡ shard
  reached start shard h k = omega arith

  shard_at-here :
      (t : Table FollowerShard) (i : ℕ) (s : FollowerShard)
      → AreShards t
      → get t i ≡ some s
      → shard_at s.creator_id s.shard t ≡ some (i, s)
  unfolding shard_at
  shard_at-here t i s shards at_i = elim (Option-cases (shard_at s.creator_id s.shard t)) [
    | inl missing ↦ ground (
      arith,
      missing,
      first-none (λ u. u.creator_id == s.creator_id && u.shard == s.shard) t i s missing at_i,
    )
    | inr ((j, u), found) ↦
        let (at_j, same, shard) = shard_at-found s.creator_id s.shard t j u found in
        ground (arith, found, at_i, at_j, shards.once i j s u at_i at_j (sym same) (sym shard))
  ]

  Taken-total :
      (creator start : ℕ) (t t' : Table FollowerShard) (other : ℕ)
      → AreShards t
      → start < shard_count
      → 0 < shard_total creator t
      → Taken creator start shard_count t t'
      → shard_total other t' + (if other == creator then 1 else 0) ≡ shard_total other t
  Taken-total creator start t _ other shards small some_follower (took i s at_i same some_left) =
      ground (
        arith,
        total-replace (λ s. s.creator_id == other) (λ s. s.count) i
            (record s { count = s.count - 1 }) s t at_i,
      )
  Taken-total creator start t _ other shards small some_follower (all_empty empty) =
      let nothing =
        total_zero (λ s. s.creator_id == creator) (λ s. s.count) t
          (λ i s at_i. elim (Bool-cases (s.creator_id == creator)) [
            | inr different ↦ ground arith
            | inl own ↦
                let own_id : s.creator_id ≡ creator = ground arith in
                let place = (s.shard + (shard_count - start)) % shard_count in
                let found : shard_at creator ((start + place) % shard_count) t ≡ some (i, s) =
                  ground (
                    arith,
                    own_id,
                    reached start s.shard small (shards.in_range i s at_i),
                    shard_at-here t i s shards at_i,
                  ) in
                ground (arith, empty place i s (ground arith) (ground arith) found)
          ]) in
      ground (arith, nothing)

  Taken-AreShards :
      (creator start left : ℕ) (t t' : Table FollowerShard)
      → Taken creator start left t t'
      → AreShards t
      → AreShards t'
  Taken-AreShards creator start left t _ (took i s at_i same some_left) h =
      AreShards-replace i (record s { count = s.count - 1 }) s t at_i refl refl h
  Taken-AreShards creator start left t _ (all_empty empty) h = h

  -- Where a creator has a follower in the shards, taking one takes one of that creator's alone.
  pub take_from_shard-total :
      (creator start : ℕ) (t : Table FollowerShard) (other : ℕ)
      → AreShards t
      → start < shard_count
      → 0 < shard_total creator t
      → shard_total other (take_from_shard creator start shard_count t)
          + (if other == creator then 1 else 0)
        ≡ shard_total other t
  take_from_shard-total creator start t other shards small some_follower =
      Taken-total creator start t (take_from_shard creator start shard_count t) other shards small
        some_follower (take_from_shard-Taken creator start shard_count t (ground arith))

  pub take_from_shard-AreShards :
      (creator start : ℕ) (t : Table FollowerShard)
      → AreShards t
      → AreShards (take_from_shard creator start shard_count t)
  take_from_shard-AreShards creator start t h =
      Taken-AreShards creator start shard_count t (take_from_shard creator start shard_count t)
        (take_from_shard-Taken creator start shard_count t (ground arith)) h

-- ===== src/Follows/Projection.antt =====
-- The projection of follower totals onto profiles (frontend/convex/follows.ts, `project`).
use bling.Prelude.{ℕ, ◌≡◌, inl, inr, refl, some, List, [], ◌∷◌, arith, ◌==◌, keep, Bool-cases, ◌∙◌}
use bling.Store.Interface.{Convex}
use bling.Store.Rows.{Row}
use bling.Store.Queries.{Table, get, first, get-first, get-replace, collect}
use bling.Store.Totals.{total, total_rows}
use bling.Schema.Docs.{Profile, FollowerShard}
use bling.Schema.State.{Db}
use bling.Follows.{sum_shards, shards_of, project}
use bling.Follows.Shards.{shard_total}
use bling.Follows.Counts.{AreCounted, followers}

module _ ⦃c : Convex⦄ where
  sum_shards-keep :
      (creator : ℕ) (rs : List (Row FollowerShard))
      → sum_shards (keep (λ r. r.1.creator_id == creator) rs)
        ≡ total_rows (λ s. s.creator_id == creator) (λ s. s.count) rs
  unfolding total_rows
  sum_shards-keep creator [] = refl
  sum_shards-keep creator (r ∷ rs) = ground (arith, sum_shards-keep creator rs)

  sum_shards-total :
      (creator : ℕ) (t : Table FollowerShard)
      → sum_shards (shards_of creator t) ≡ shard_total creator t
  unfolding collect total
  sum_shards-total creator t = sum_shards-keep creator (c.rows t)

  -- In a state whose counts are those of the follows, the projection for a creator who has a profile
  -- leaves the number of their followers on it.
  pub project-followers :
      (creator : ℕ) (db : Db) (i : ℕ) (p : Profile)
      → AreCounted db.follows
      → first (λ p. p.user_id == creator) db.social.profiles ≡ some (i, p)
      → get (project creator db).social.profiles i
        ≡ some (record p { follower_count = followers creator db.follows.follows })
  unfolding project
  project-followers creator db i p counted found =
      let (at_i, own) = get-first (λ p. p.user_id == creator) db.social.profiles (i, p) found in
      let sum : sum_shards (shards_of creator db.follows.shards)
          ≡ followers creator db.follows.follows =
        sum_shards-total creator db.follows.shards ∙ counted.by_creator creator in
      elim (Bool-cases (p.follower_count == sum_shards (shards_of creator db.follows.shards))) [
        | inl there ↦ ground (arith, sum, at_i)
        | inr stale ↦ ground (
          arith,
          sum,
          get-replace i
              (record p { follower_count = sum_shards (shards_of creator db.follows.shards) }) p
              db.social.profiles i at_i,
        )
      ]

  pub project-AreCounted :
      (creator : ℕ) (db : Db) → AreCounted db.follows → AreCounted (project creator db).follows
  unfolding project
  project-AreCounted creator db h = record {
    shards = h.shards;
    once = h.once;
    by_creator = h.by_creator;
    by_user = h.by_user;
    limited = h.limited;
  }

-- ===== src/Follows.antt =====
-- Follows (frontend/convex/follows.ts) and the limits on social writes (frontend/convex/lib/social.ts).
-- A creator's follower total lies in 64 shards, and is projected onto the profile later.
pub mod Shards
pub mod Counts
pub mod Projection
use bling.Prelude.{
  ℕ, zero, suc, ◌+◌, ◌-◌, ◌*◌, ◌%◌, ◌≡◌, Bool, true, false, not, ◌&&◌, ◌||◌, Option, none, some,
  List, [], ◌∷◌, ◌++◌, ◌==◌, leb, ltb, if◌then◌else◌, is_some, String, str_eq,
}
use bling.Prelude.Int.{ℤ, pos, ◌+ℤ◌, ◌-ℤ◌, leb_ℤ}
use bling.Prelude.Result.{
  Result, ok, err, creator_not_found, self_follow, follow_limit, rate_limited, ◌>>=◌, ◌>>◌, fail_if,
}
use bling.Accounts.{require_creator_id}
use bling.Store.Interface.{Convex}
use bling.Store.Rows.{Row}
use bling.Store.Queries.{Table, get, first, collect, insert, replace, delete, delete_all}
use bling.Schema.Docs.{
  Profile, Follow, FollowingCount, FollowerShard, FollowerProjection, RateLimit, LimitKey,
  follow_key,
}
use bling.Schema.State.{Env, Db, Follows, run_at, project_followers}

abbrev pub shard_count : ℕ
shard_count = 64

abbrev pub max_follows : ℕ
max_follows = 1000

abbrev pub projection_delay_ms : ℕ
projection_delay_ms = 5000

-- `a === b` on Booleans.
abbrev pub follow_eq : Bool → Bool → Bool
follow_eq true b = b
follow_eq false b = not b

abbrev pub limit_key_eq : LimitKey → LimitKey → Bool
limit_key_eq (follow_key a) (follow_key b) = a == b

module _ ⦃c : Convex⦄ where
  -- Fixed windows: the first write of a window sets the count to 1.
  unfoldable pub rate_limit :
      (now : ℕ) → LimitKey → (per_window window_ms : ℕ) → Table RateLimit → Result (Table RateLimit)
  rate_limit now key per_window window_ms t =
      let window_start = now - now % window_ms in
      elim (first (λ r. limit_key_eq r.key key) t) [
        | none ↦ ok (insert (record { key = key; window_start = window_start; count = 1 }) t)
        | some (id, row) ↦
            if not (row.window_start == window_start)
            then ok (replace id (record row { window_start = window_start; count = 1 }) t)
            else if leb per_window row.count
            then err rate_limited
            else ok (replace id (record row { count = row.count + 1 }) t)
      ]

  -- `normal` is `trim().toLowerCase()`.
  unfoldable pub profile_by_username :
      (normal : String → String) → (username : String) → Table Profile → Option (Row Profile)
  profile_by_username normal username t = first (λ p. str_eq p.username (normal username)) t

  unfoldable pub follow_of : (follower_id creator_id : ℕ) → Table Follow → Option (Row Follow)
  follow_of follower_id creator_id t =
      first (λ f. f.follower_id == follower_id && f.creator_id == creator_id) t

  abbrev pub count_of : (user_id : ℕ) → Table FollowingCount → ℤ
  count_of user_id t = elim (first (λ r. r.user_id == user_id) t) [
    | none ↦ pos 0
    | some (_, r) ↦ r.count
  ]

  abbrev pub set_count : (user_id : ℕ) → (count : ℤ) → Table FollowingCount → Table FollowingCount
  set_count user_id count t = elim (first (λ r. r.user_id == user_id) t) [
    | some (id, r) ↦ replace id (record r { count = count }) t
    | none ↦ insert (record { user_id = user_id; count = count }) t
  ]

  unfoldable pub shard_at :
      (creator_id shard : ℕ) → Table FollowerShard → Option (Row FollowerShard)
  shard_at creator_id shard t = first (λ s. s.creator_id == creator_id && s.shard == shard) t

  unfoldable pub add_to_shard : (creator_id start : ℕ) → Table FollowerShard → Table FollowerShard
  unfolding shard_at
  add_to_shard creator_id start t = elim (shard_at creator_id start t) [
    | some (id, s) ↦ replace id (record s { count = s.count + 1 }) t
    | none ↦ insert (record { creator_id = creator_id; shard = start; count = 1 }) t
  ]

  -- The loop from the random start, with `left` of the 64 shards to look at.
  unfoldable pub take_from_shard :
      (creator_id start left : ℕ) → Table FollowerShard → Table FollowerShard
  unfolding shard_at
  take_from_shard creator_id start zero t = t
  take_from_shard creator_id start (suc left) t =
      let later = take_from_shard creator_id start left t in
      elim (shard_at creator_id ((start + (shard_count - suc left)) % shard_count) t) [
        | none ↦ later
        | some (id, s) ↦
            if ltb 0 s.count then replace id (record s { count = s.count - 1 }) t else later
      ]

  -- `start` is `Math.floor(Math.random() * 64)`.
  unfoldable pub adjust_shard : (now start creator_id : ℕ) → (follow : Bool) → Db → Db
  unfolding add_to_shard take_from_shard
  adjust_shard now start creator_id follow db =
      let pending = is_some (first (λ p. p.creator_id == creator_id) db.follows.projections) in
      record db {
        follows = record db.follows {
          shards =
              if follow
              then add_to_shard creator_id start db.follows.shards
              else take_from_shard creator_id start shard_count db.follows.shards;
          projections =
              if pending
              then db.follows.projections
              else insert (record { creator_id = creator_id }) db.follows.projections;
        };
        jobs =
            if pending
            then db.jobs
            else db.jobs ++ run_at (now + projection_delay_ms) (project_followers creator_id);
      }

  -- The writes of `setFollow` past its guards.
  unfoldable pub write_follow :
      Env
      → (start user_id creator_id : ℕ) → (follow : Bool) → (existing : Option (Row Follow))
      → (count : ℤ) → Table RateLimit
      → Db
      → Db
  unfolding adjust_shard
  write_follow env start user_id creator_id follow existing count limits db =
      adjust_shard env.now start creator_id follow (record db {
        follows = record db.follows {
          limits = limits;
          counts =
              set_count user_id (if follow then count +ℤ pos 1 else count -ℤ pos 1)
                db.follows.counts;
          follows =
              if follow
              then insert (record { follower_id = user_id; creator_id = creator_id })
                  db.follows.follows
              else elim existing [
                | none ↦ db.follows.follows
                | some (id, _) ↦ delete id db.follows.follows
              ];
        };
      })

  -- `follow` and `unfollow`: the target state, not a toggle.
  unfoldable pub set_follow :
      Env
      → (normal : String → String) → (start : ℕ) → (username : String) → (follow : Bool) → Db
      → Result Db
  unfolding require_creator_id profile_by_username follow_of rate_limit write_follow
  set_follow env normal start username follow db = do
    user_id ← require_creator_id env db
    elim (profile_by_username normal username db.social.profiles) [
      | none ↦ err creator_not_found
      | some (_, creator) ↦
          if follow && not creator.published
          then err creator_not_found
          else if creator.user_id == user_id
          then err self_follow
          else (do
            let existing = follow_of user_id creator.user_id db.follows.follows
            let count = count_of user_id db.follows.counts
            if follow_eq (is_some existing) follow then ok db else (do
              limits ← rate_limit env.now (follow_key user_id) 60 60000 db.follows.limits
              fail_if (follow && leb_ℤ (pos max_follows) count) follow_limit
              ok (write_follow env start user_id creator.user_id follow existing count limits db)))
    ]

  abbrev pub sum_shards : List (Row FollowerShard) → ℕ
  sum_shards [] = 0
  sum_shards ((_, s) ∷ rest) = s.count + sum_shards rest

  abbrev pub shards_of : (creator_id : ℕ) → Table FollowerShard → List (Row FollowerShard)
  shards_of creator_id t = collect (λ s. s.creator_id == creator_id) t

  -- Sums a creator's shards into their profile's count.
  unfoldable pub project : (creator_id : ℕ) → Db → Db
  project creator_id db =
      let total = sum_shards (shards_of creator_id db.follows.shards) in
      record db {
        social = record db.social {
          profiles = elim (first (λ p. p.user_id == creator_id) db.social.profiles) [
            | none ↦ db.social.profiles
            | some (id, p) ↦
                if p.follower_count == total
                then db.social.profiles
                else replace id (record p { follower_count = total }) db.social.profiles
          ];
        };
        follows = record db.follows {
          projections =
              delete_all (collect (λ p. p.creator_id == creator_id) db.follows.projections)
                db.follows.projections;
        };
      }

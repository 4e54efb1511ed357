-- ===== src/Follows/Counts.antt =====
-- The counts that are kept beside the follows (frontend/convex/follows.ts).
use bling.Prelude.{
  ℕ, ◌+◌, ◌≤◌, ◌<◌, ◌≡◌, inl, inr, Bool, false, ◌&&◌, none, some, arith, ◌==◌, if◌then◌else◌,
  is_some, Bool-cases, Option-cases, subst, String,
}
use bling.Prelude.Int.{ℤ, pos, ◌+ℤ◌, ◌-ℤ◌, leb_ℤ}
use bling.Prelude.Result.{ok, Result-cases}
use bling.Accounts.{require_creator_id}
use bling.Store.Interface.{Convex}
use bling.Store.Queries.{
  Table, get, first, get-first, first-none, insert, delete, get-insert, get-delete,
}
use bling.Store.Sums.{first-insert, first-replace_hit, first-replace_miss}
use bling.Store.Totals.{total, total-insert, total-delete}
use bling.Schema.Docs.{Follow, FollowingCount, FollowerProjection, RateLimit, follow_key}
use bling.Schema.State.{Env, Db, Follows}
use bling.Follows.{
  shard_count, max_follows, follow_of, count_of, set_count, add_to_shard, take_from_shard,
  adjust_shard, write_follow, set_follow, profile_by_username, rate_limit,
}
use bling.Follows.Shards.{
  shard_total, AreShards, add_to_shard-AreShards, add_to_shard-total, take_from_shard-AreShards,
  take_from_shard-total,
}

module _ ⦃c : Convex⦄ where
  abbrev pub followers : (creator : ℕ) → Table Follow → ℕ
  followers creator t = total (λ f. f.creator_id == creator) (λ f. 1) t

  abbrev pub followed : (user : ℕ) → Table Follow → ℕ
  followed user t = total (λ f. f.follower_id == user) (λ f. 1) t

  -- Every count that is kept is that of the follows.
  pub record AreCounted (f : Follows) : Type 0 where
    pub shards : AreShards f.shards
    pub once :
        (i j : ℕ) (a b : Follow)
        → get f.follows i ≡ some a
        → get f.follows j ≡ some b
        → a.follower_id ≡ b.follower_id
        → a.creator_id ≡ b.creator_id
        → i ≡ j
    pub by_creator : (creator : ℕ) → shard_total creator f.shards ≡ followers creator f.follows
    pub by_user : (user : ℕ) → count_of user f.counts ≡ pos (followed user f.follows)
    pub limited : (user : ℕ) → followed user f.follows ≤ max_follows

  count_of-set_count :
      (user : ℕ) (count : ℤ) (t : Table FollowingCount) (other : ℕ)
      → count_of other (set_count user count t)
        ≡ (if other == user then count else count_of other t)
  count_of-set_count user count t other = elim (Option-cases (first (λ r. r.user_id == user) t)) [
    | inl missing ↦
        ground (
          arith,
          first-insert (λ r. r.user_id == other) (record { user_id = user; count = count }) t,
        )
    | inr ((i, r), found) ↦
        let (at_i, own) = get-first (λ r. r.user_id == user) t (i, r) found in
        elim (Bool-cases (other == user)) [
          | inl same ↦
              let other_is : other ≡ user = ground arith in
              ground (
                arith,
                other_is,
                own,
                first-replace_hit (λ r. r.user_id == user) i r (record r { count = count }) t found
                    at_i own,
              )
          | inr different ↦ ground (
            arith,
            first-replace_miss (λ r. r.user_id == other) i r (record r { count = count }) t at_i,
          )
        ]
  ]

  follow_of-found :
      (user creator : ℕ) (t : Table Follow) (i : ℕ) (f : Follow)
      → follow_of user creator t ≡ some (i, f)
      → (get t i ≡ some f) × (f.follower_id ≡ user) × (f.creator_id ≡ creator)
  unfolding follow_of
  follow_of-found user creator t i f found =
      let (at_i, hit) =
        get-first (λ f. f.follower_id == user && f.creator_id == creator) t (i, f) found in
      (at_i, ground (arith, hit), ground (arith, hit))

  one_more : (z : ℤ) (n : ℕ) → z ≡ pos n → z +ℤ pos 1 ≡ pos (n + 1)
  unfolding ◌+ℤ◌
  one_more z n h = ground arith

  one_less : (z : ℤ) (n : ℕ) → z ≡ pos (n + 1) → z -ℤ pos 1 ≡ pos n
  unfolding ◌-ℤ◌
  one_less z n h = ground arith

  each_user :
      (user : ℕ) (f : Follows)
      → count_of user f.counts ≡ pos (followed user f.follows)
      → ((u : ℕ) → (u == user) ≡ false → count_of u f.counts ≡ pos (followed u f.follows))
      → (u : ℕ) → count_of u f.counts ≡ pos (followed u f.follows)
  each_user user f own others u = elim (Bool-cases (u == user)) [
    | inl same ↦
        let user_is_u : user ≡ u = ground arith in
        subst (λ v. count_of v f.counts ≡ pos (followed v f.follows)) user_is_u own
    | inr different ↦ others u different
  ]

  -- The follows and their counts with one follow more.
  abbrev with_follow :
      (start user creator : ℕ) → Table RateLimit → Table FollowerProjection → Follows → Follows
  with_follow start user creator limits projections f = record f {
    limits = limits;
    projections = projections;
    follows = insert (record { follower_id = user; creator_id = creator }) f.follows;
    counts = set_count user (count_of user f.counts +ℤ pos 1) f.counts;
    shards = add_to_shard creator start f.shards;
  }

  with_follow-AreCounted :
      (start user creator : ℕ) (limits : Table RateLimit) (projections : Table FollowerProjection)
      (f : Follows)
      → start < shard_count
      → follow_of user creator f.follows ≡ none
      → leb_ℤ (pos max_follows) (count_of user f.counts) ≡ false
      → AreCounted f
      → AreCounted (with_follow start user creator limits projections f)
  unfolding follow_of
  with_follow-AreCounted start user creator limits projections f small new room h =
      let added : Follow = record { follower_id = user; creator_id = creator } in
      record {
        shards = add_to_shard-AreShards creator start f.shards small h.shards;
        once = λ i j a b x y p q. ground (
          arith,
          get-insert added f.follows i,
          get-insert added f.follows j,
          h.once i j a b,
          first-none (λ f. f.follower_id == user && f.creator_id == creator) f.follows i a new,
          first-none (λ f. f.follower_id == user && f.creator_id == creator) f.follows j b new,
        );
        by_creator = λ k. ground (
          arith,
          add_to_shard-total creator start f.shards k,
          total-insert (λ f. f.creator_id == k) (λ f. 1) added f.follows,
          h.by_creator k,
        );
        by_user =
            each_user user (with_follow start user creator limits projections f)
              (ground (
                arith,
                count_of-set_count user (count_of user f.counts +ℤ pos 1) f.counts user,
                total-insert (λ f. f.follower_id == user) (λ f. 1) added f.follows,
                one_more (count_of user f.counts) (followed user f.follows) (h.by_user user),
              ))
              (λ u other. ground (
                arith,
                other,
                count_of-set_count user (count_of user f.counts +ℤ pos 1) f.counts u,
                total-insert (λ f. f.follower_id == u) (λ f. 1) added f.follows,
                h.by_user u,
              ));
        limited = λ u. ground (
          arith,
          total-insert (λ f. f.follower_id == u) (λ f. 1) added f.follows,
          h.by_user user,
          h.limited u,
        );
      }

  -- With one follow less.
  abbrev without_follow :
      (start user creator id : ℕ) → Table RateLimit → Table FollowerProjection → Follows → Follows
  without_follow start user creator id limits projections f = record f {
    limits = limits;
    projections = projections;
    follows = delete id f.follows;
    counts = set_count user (count_of user f.counts -ℤ pos 1) f.counts;
    shards = take_from_shard creator start shard_count f.shards;
  }

  without_follow-AreCounted :
      (start user creator id : ℕ) (gone : Follow) (limits : Table RateLimit)
      (projections : Table FollowerProjection) (f : Follows)
      → start < shard_count
      → follow_of user creator f.follows ≡ some (id, gone)
      → AreCounted f
      → AreCounted (without_follow start user creator id limits projections f)
  without_follow-AreCounted start user creator id gone limits projections f small found h =
      let (at_id, by_user, of_creator) = follow_of-found user creator f.follows id gone found in
      let others =
        λ (k : ℕ). total-delete (λ f. f.creator_id == k) (λ f. 1) id gone f.follows at_id in
      let rest =
        λ (u : ℕ). total-delete (λ f. f.follower_id == u) (λ f. 1) id gone f.follows at_id in
      let some_follower : 0 < shard_total creator f.shards =
        ground (arith, h.by_creator creator, others creator) in
      record {
        shards = take_from_shard-AreShards creator start f.shards h.shards;
        once = λ i j a b x y p q.
            ground (arith, get-delete id f.follows i, get-delete id f.follows j, h.once i j a b);
        by_creator = λ k. ground (
          arith,
          take_from_shard-total creator start f.shards k h.shards small some_follower,
          others k,
          h.by_creator k,
        );
        by_user =
            each_user user (without_follow start user creator id limits projections f)
              (ground (
                arith,
                count_of-set_count user (count_of user f.counts -ℤ pos 1) f.counts user,
                rest user,
                by_user,
                one_less (count_of user f.counts) (followed user (delete id f.follows))
                    (ground (arith, h.by_user user, rest user, by_user)),
              ))
              (λ u other. ground (
                arith,
                other,
                by_user,
                count_of-set_count user (count_of user f.counts -ℤ pos 1) f.counts u,
                rest u,
                h.by_user u,
              ));
        limited = λ u. ground (arith, rest u, h.limited u);
      }

  -- What a call that succeeds has done to the follows.
  pub data FollowStep (start : ℕ) (f : Follows) : Follows → Type 0 where
    unchanged : FollowStep start f f
    followed_one :
        (user creator : ℕ) (limits : Table RateLimit) (projections : Table FollowerProjection)
        → follow_of user creator f.follows ≡ none
        → leb_ℤ (pos max_follows) (count_of user f.counts) ≡ false
        → FollowStep start f (with_follow start user creator limits projections f)
    unfollowed_one :
        (user creator id : ℕ) (gone : Follow) (limits : Table RateLimit)
        (projections : Table FollowerProjection)
        → follow_of user creator f.follows ≡ some (id, gone)
        → FollowStep start f (without_follow start user creator id limits projections f)

  FollowStep-AreCounted :
      (start : ℕ) (f f' : Follows)
      → start < shard_count
      → FollowStep start f f'
      → AreCounted f
      → AreCounted f'
  FollowStep-AreCounted start f _ small unchanged h = h
  FollowStep-AreCounted start f _ small (followed_one user creator limits projections new room) h =
      with_follow-AreCounted start user creator limits projections f small new room h
  FollowStep-AreCounted start f _ small
        (unfollowed_one user creator id gone limits projections found) h =
      without_follow-AreCounted start user creator id gone limits projections f small found h

  abbrev pending_after : (creator : ℕ) → Table FollowerProjection → Table FollowerProjection
  pending_after creator t =
      if is_some (first (λ p. p.creator_id == creator) t)
      then t
      else insert (record { creator_id = creator }) t

  set_follow-FollowStep :
      (env : Env) (normal : String → String) (start : ℕ) (username : String) (follow : Bool)
      (db db' : Db)
      → set_follow env normal start username follow db ≡ ok db'
      → FollowStep start db.follows db'.follows
  unfolding set_follow write_follow adjust_shard
  set_follow-FollowStep env normal start username follow db db' h =
      elim (Result-cases (require_creator_id env db)) [
        | inl (x, failing) ↦ ground arith
        | inr (user, signed_in) ↦
            elim (Option-cases (profile_by_username normal username db.social.profiles)) [
              | inl missing ↦ ground arith
              | inr ((i, p), found) ↦
                  elim (Result-cases
                    (rate_limit env.now (follow_key user) 60 60000 db.follows.limits)) [
                      | inl (x, limited) ↦
                          subst (FollowStep start db.follows) (ground arith) unchanged
                      | inr (limits, below) ↦
                          let pending = pending_after p.user_id db.follows.projections in
                          elim (Option-cases (follow_of user p.user_id db.follows.follows)) [
                            | inl new ↦ elim (Bool-cases follow) [
                              | inr unfollow ↦
                                  subst (FollowStep start db.follows) (ground arith) unchanged
                              | inl wanted ↦
                                  subst (FollowStep start db.follows) (ground arith)
                                    (followed_one user p.user_id limits pending new (ground arith))
                            ]
                            | inr ((id, f), known) ↦ elim (Bool-cases follow) [
                              | inl wanted ↦
                                  subst (FollowStep start db.follows) (ground arith) unchanged
                              | inr unfollow ↦ elim (Bool-cases (p.user_id == user)) [
                                | inl self ↦ ground arith
                                | inr other ↦
                                    subst (FollowStep start db.follows) (ground arith)
                                      (unfollowed_one user p.user_id id f limits pending known)
                              ]
                            ]
                          ]
                    ]
            ]
      ]

  -- Following and unfollowing keep every count what the follows make it.
  pub set_follow-AreCounted :
      (env : Env) (normal : String → String) (start : ℕ) (username : String) (follow : Bool)
      (db db' : Db)
      → start < shard_count
      → set_follow env normal start username follow db ≡ ok db'
      → AreCounted db.follows
      → AreCounted db'.follows
  set_follow-AreCounted env normal start username follow db db' small h counted =
      FollowStep-AreCounted start db.follows db'.follows small
        (set_follow-FollowStep env normal start username follow db db' h) counted

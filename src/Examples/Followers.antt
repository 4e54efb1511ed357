-- ===== src/Examples/Followers.antt =====
-- Examples of tiers and follows.
use bling.Prelude.{◌≡◌, refl, none, some, true, false, List, [], ◌∷◌, arith, ◌==◌}
use bling.Prelude.Int.{pos}
use bling.Prelude.Result.{ok}
use bling.Accounts.{require_creator_id, show_for_creator}
use bling.Store.Rows.{lookup}
use bling.Store.Queries.{get, first, insert, collect, delete_all, Every}
use bling.Store.Totals.{total, total_rows}
use bling.Store.InMemory.{in_memory, empty, above}
use bling.Schema.Status.{ShowStatus, PaymentStatus}
use bling.Schema.Docs.{Text}
use bling.Schema.State.{Env, Db}
use bling.Schema.Text.{trim, trim_start, is_space}
use bling.Tiers.{TierInput, replace_tiers, checked, normalize, text_eq, insert_tiers}
use bling.Tiers.Acceptance.{AreAcceptable, no_more, one_more, replace_tiers-accepts}
use bling.Tiers.Valid.{IsTier, IsConfiguration, documents, replace_tiers-IsConfiguration}
use bling.Follows.{project}
use bling.Follows.Counts.{AreCounted, followers}
use bling.Follows.Projection.{project-followers}
use bling.System.{Op, serve}
use bling.System.Histories.{serve-IsTier, serve-AreCounted}
use bling.Examples.{creator_at, caller_at, empty_db, creator, live_show, queued, profile, viewer}

-- A show that has not started.
unfoldable draft : Db ⦃c = in_memory⦄
unfolding insert
draft = record empty_db {
  users = insert creator empty;
  shows = insert (record live_show { status = ShowStatus.created; started_at = none }) empty;
}

abbrev inputs : List TierInput
inputs =
    record {
      name = 32 ∷ 86 ∷ [];
      call_duration_seconds = some (pos 60);
      price_cents = some (pos 500);
      enabled = true;
    }
    ∷ []

unfoldable configured : Db ⦃c = in_memory⦄
unfolding draft insert
configured = record draft {
  tiers =
      insert
        (record {
          show_id = 1;
          name = 86 ∷ [];
          priority_rank = 100;
          call_duration_seconds = 60;
          price_cents = 500;
          enabled = true;
        })
        empty;
}

abbrev as_is : Text → Text
as_is t = t

tiers_replaced : replace_tiers ⦃c = in_memory⦄ as_is (creator_at 5) 1 inputs draft ≡ ok configured
unfolding replace_tiers checked normalize text_eq insert_tiers delete_all collect get lookup insert
    draft configured above require_creator_id show_for_creator trim trim_start is_space
tiers_replaced = refl

replace_tiers-IsConfiguration_example :
    IsConfiguration as_is 1 inputs
      (documents (collect ⦃c = in_memory⦄ (λ t. t.show_id == 1) configured.tiers))
replace_tiers-IsConfiguration_example =
    replace_tiers-IsConfiguration ⦃c = in_memory⦄ as_is (creator_at 5) 1 inputs draft configured
      tiers_replaced

paid_one-IsTier : Every ⦃c = in_memory⦄ IsTier (queued PaymentStatus.captured).tiers
unfolding get lookup insert queued above
paid_one-IsTier i d at_i = record {
  named = ground arith;
  long = ground arith;
  priced = ground arith;
  ranked = ground arith;
}

abbrev tier_history : List (Env × Op)
tier_history =
    (creator_at 40, Op.create_show) ∷ (creator_at 41, Op.replace_tiers as_is 2 inputs) ∷ []

serve-IsTier_example :
    Every ⦃c = in_memory⦄ IsTier (serve (queued PaymentStatus.captured) tier_history).tiers
serve-IsTier_example =
    serve-IsTier ⦃c = in_memory⦄ (queued PaymentStatus.captured) tier_history paid_one-IsTier

-- Users 1 and 2, of whom 1 has a profile, and 2 follows 1.
unfoldable followed : Db ⦃c = in_memory⦄
unfolding insert
followed = record empty_db {
  users = insert viewer (insert creator empty);
  social = record { profiles = insert profile empty; live_events = empty };
  follows = record {
    follows = insert (record { follower_id = 2; creator_id = 1 }) empty;
    counts = insert (record { user_id = 2; count = pos 1 }) empty;
    shards = insert (record { creator_id = 1; shard = 9; count = 1 }) empty;
    projections = insert (record { creator_id = 1 }) empty;
    limits = empty;
  };
}

one_follow-AreCounted : AreCounted ⦃c = in_memory⦄ followed.follows
unfolding get lookup insert followed first total total_rows above
one_follow-AreCounted = record {
  shards = record { in_range = λ i s x. ground arith; once = λ i j s u x y p q. ground arith };
  once = λ i j a b x y p q. ground arith;
  by_creator = λ k. ground arith;
  by_user = λ u. ground arith;
  limited = λ u. ground arith;
}

abbrev follow_history : List (Env × Op)
follow_history =
    (caller_at 40, Op.set_follow (λ name. name) 3 "ada" false)
    ∷ (caller_at 41, Op.set_follow (λ name. name) 70 "ada" true)
    ∷ (caller_at 5041, Op.project_follows 1)
    ∷ []

serve-AreCounted_example : AreCounted ⦃c = in_memory⦄ (serve followed follow_history).follows
serve-AreCounted_example =
    serve-AreCounted ⦃c = in_memory⦄ followed follow_history one_follow-AreCounted

profile_there :
    first ⦃c = in_memory⦄ (λ p. p.user_id == 1) followed.social.profiles ≡ some (1, profile)
unfolding first insert followed above
profile_there = refl

project-followers_example :
    get ⦃c = in_memory⦄ (project 1 followed).social.profiles 1
    ≡ some (record profile { follower_count = followers 1 followed.follows.follows })
project-followers_example =
    project-followers ⦃c = in_memory⦄ 1 followed 1 profile one_follow-AreCounted profile_there

inputs-AreAcceptable : AreAcceptable as_is [] inputs
unfolding trim trim_start is_space text_eq
inputs-AreAcceptable = one_more 60 500 refl refl refl refl refl refl no_more

creator_signed_in : require_creator_id ⦃c = in_memory⦄ (creator_at 5) draft ≡ ok 1
unfolding require_creator_id get lookup insert draft above
creator_signed_in = refl

own_draft :
    show_for_creator ⦃c = in_memory⦄ 1 1 draft
    ≡ ok (record live_show { status = ShowStatus.created; started_at = none })
unfolding show_for_creator get lookup insert draft above
own_draft = refl

replace_tiers-accepts_example :
    (db' : Db ⦃c = in_memory⦄) × (replace_tiers ⦃c = in_memory⦄ as_is (creator_at 5) 1 inputs draft
      ≡ ok db')
replace_tiers-accepts_example =
    replace_tiers-accepts ⦃c = in_memory⦄ as_is (creator_at 5) 1 1
      (record live_show { status = ShowStatus.created; started_at = none }) inputs draft
      creator_signed_in own_draft refl inputs-AreAcceptable (omega arith) (omega arith) refl

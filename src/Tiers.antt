-- ===== src/Tiers.antt =====
-- Tier configuration of a show that has not started (frontend/convex/tiers.ts).
pub mod Valid
pub mod Acceptance
use bling.Prelude.{
  ℕ, suc, ◌+◌, ◌-◌, ◌*◌, ◌≡◌, Bool, true, false, not, ◌&&◌, ◌||◌, Option, none, some, List, [], ◌∷◌,
  ◌==◌, leb, ltb, if◌then◌else◌, any, length, reverse, keep,
}
use bling.Prelude.Int.{ℤ, pos, negsuc}
use bling.Prelude.Result.{
  Result, ok, err, show_not_configurable, invalid_tier_configuration, ◌>>=◌, ◌>>◌, fail_if,
}
use bling.Accounts.{require_creator_id, show_for_creator}
use bling.Store.Interface.{Convex}
use bling.Store.Rows.{Row}
use bling.Store.Queries.{Table, collect, get, insert, delete_all, sort_by}
use bling.Schema.Status.{ShowStatus, show_eq}
use bling.Schema.Docs.{ShowTier, Text}
use bling.Schema.Text.{trim, has_length}
use bling.Schema.State.{Env, Db}

abbrev pub max_tiers : ℕ
max_tiers = 5

-- A tier as the client gives it. A number that is not whole is `none`.
pub record TierInput : Type 0 where
  pub name : Text
  pub call_duration_seconds : Option ℤ
  pub price_cents : Option ℤ
  pub enabled : Bool

abbrev pub is_duration : ℕ → Bool
is_duration n = leb 30 n && leb n 3600

abbrev pub is_price : ℕ → Bool
is_price n = n == 0 || (leb 50 n && leb n 1000000)

-- A whole number that is not negative and passes the test.
abbrev pub whole : (ℕ → Bool) → Option ℤ → Result ℕ
whole p none = err invalid_tier_configuration
whole p (some (negsuc n)) = err invalid_tier_configuration
whole p (some (pos n)) = if p n then ok n else err invalid_tier_configuration

-- `a === b` on texts.
unfoldable pub text_eq : Text → Text → Bool
text_eq [] [] = true
text_eq (a ∷ as') (b ∷ bs) = a == b && text_eq as' bs
text_eq _ _ = false

-- `String.prototype.toLowerCase`.
module _ (lower : Text → Text) where
  -- `seen` holds the names so far, in lower case; `left` is `tiers.length - index`.
  unfoldable pub normalize :
      (show_id : ℕ) → (seen : List Text) → List TierInput → Result (List ShowTier)
  unfolding text_eq
  normalize show_id seen [] = ok []
  normalize show_id seen (input ∷ rest) = do
    let name = trim input.name
    let key = lower name
    fail_if (not (has_length 1 40 name)) invalid_tier_configuration
    seconds ← whole is_duration input.call_duration_seconds
    cents ← whole is_price input.price_cents
    fail_if (any (text_eq key) seen) invalid_tier_configuration
    others ← normalize show_id (key ∷ seen) rest
    ok (
        record {
          show_id = show_id;
          name = name;
          priority_rank = suc (length rest) * 100;
          call_duration_seconds = seconds;
          price_cents = cents;
          enabled = input.enabled;
        }
        ∷ others)

  -- The tiers to write, or INVALID_TIER_CONFIGURATION.
  unfoldable pub checked : (show_id : ℕ) → List TierInput → Result (List ShowTier)
  unfolding normalize
  checked show_id tiers = do
    fail_if (length tiers == 0 || ltb max_tiers (length tiers)) invalid_tier_configuration
    normalized ← normalize show_id [] tiers
    fail_if (not (any (λ t. t.enabled) normalized)) invalid_tier_configuration
    ok normalized

module _ ⦃c : Convex⦄ where
  unfoldable pub insert_tiers : List ShowTier → Table ShowTier → Table ShowTier
  insert_tiers [] t = t
  insert_tiers (d ∷ ds) t = insert_tiers ds (insert d t)

  unfoldable pub replace_tiers :
      (lower : Text → Text) → Env → (show_id : ℕ) → List TierInput → Db → Result Db
  unfolding require_creator_id show_for_creator checked insert_tiers
  replace_tiers lower env show_id tiers db = do
    creator_id ← require_creator_id env db
    show ← show_for_creator show_id creator_id db
    fail_if (not (show_eq show.status ShowStatus.created)) show_not_configurable
    normalized ← checked lower show_id tiers
    ok (record db {
      tiers =
          insert_tiers normalized
            (delete_all (collect (λ t. t.show_id == show_id) db.tiers) db.tiers);
    })

  -- `forCreator`: highest priority first.
  unfoldable pub tiers_for_creator : Env → (show_id : ℕ) → Db → Result (List (Row ShowTier))
  unfolding require_creator_id show_for_creator
  tiers_for_creator env show_id db = do
    creator_id ← require_creator_id env db
    show ← show_for_creator show_id creator_id db
    ok (reverse (sort_by (λ t. t.priority_rank) (collect (λ t. t.show_id == show_id) db.tiers)))

  -- `forLiveShow`: what a caller may pick from while the show is live.
  unfoldable pub tiers_for_live_show : (show_id : ℕ) → Db → List (Row ShowTier)
  tiers_for_live_show show_id db = elim (get db.shows show_id) [
    | none ↦ []
    | some show ↦
        if show_eq show.status ShowStatus.live
        then keep (λ r. r.1.enabled)
            (reverse
              (sort_by (λ t. t.priority_rank) (collect (λ t. t.show_id == show_id) db.tiers)))
        else []
  ]

-- ===== src/Tiers/Acceptance.antt =====
-- Which tier configurations `replace` accepts (frontend/convex/tiers.ts).
use bling.Prelude.{
  ℕ, suc, ◌*◌, ◌≤◌, ◌≡◌, refl, true, false, some, List, [], ◌∷◌, arith, ◌==◌, any, length,
}
use bling.Prelude.Int.{pos}
use bling.Prelude.Result.{ok}
use bling.Accounts.{require_creator_id, show_for_creator}
use bling.Store.Interface.{Convex}
use bling.Store.Queries.{collect, delete_all}
use bling.Schema.Status.{ShowStatus}
use bling.Schema.Docs.{Show, ShowTier, Text}
use bling.Schema.Text.{trim, has_length}
use bling.Schema.State.{Env, Db}
use bling.Tiers.{
  TierInput, max_tiers, is_duration, is_price, text_eq, normalize, checked, insert_tiers,
  replace_tiers,
}
use bling.Tiers.Valid.{tier_of}

module _ (lower : Text → Text) where
  -- Inputs with fields in range, of names that are not among those given and differ in lower case.
  pub data AreAcceptable : (seen : List Text) → List TierInput → Type 0 where
    no_more : {seen : List Text} → AreAcceptable seen []
    one_more :
        {seen : List Text} {input : TierInput} {rest : List TierInput} (seconds cents : ℕ)
        → has_length 1 40 (trim input.name) ≡ true
        → input.call_duration_seconds ≡ some (pos seconds)
        → is_duration seconds ≡ true
        → input.price_cents ≡ some (pos cents)
        → is_price cents ≡ true
        → any (text_eq (lower (trim input.name))) seen ≡ false
        → AreAcceptable (lower (trim input.name) ∷ seen) rest
        → AreAcceptable seen (input ∷ rest)

  normalize-accepts :
      (show_id : ℕ) (seen : List Text) (inputs : List TierInput)
      → AreAcceptable seen inputs
      → (out : List ShowTier) × (normalize lower show_id seen inputs ≡ ok out)
        × (any (λ t. t.enabled) out ≡ any (λ i. i.enabled) inputs)
  unfolding normalize
  normalize-accepts show_id seen _ no_more = ([], refl, refl)
  normalize-accepts show_id seen (input ∷ rest)
        (one_more seconds cents name s long p priced new others) =
      let (out, accepted, enabled) =
        normalize-accepts show_id (lower (trim input.name) ∷ seen) rest others in
      (
        tier_of show_id input seconds cents (suc (length rest) * 100) ∷ out,
        ground (arith, name, s, long, p, priced, new, accepted),
        ground (arith, enabled),
      )

  checked-accepts :
      (show_id : ℕ) (inputs : List TierInput)
      → AreAcceptable [] inputs
      → 1 ≤ length inputs
      → length inputs ≤ max_tiers
      → any (λ i. i.enabled) inputs ≡ true
      → (out : List ShowTier) × (checked lower show_id inputs ≡ ok out)
  unfolding checked
  checked-accepts show_id inputs acceptable some_tier few enabled =
      let (out, accepted, same) = normalize-accepts show_id [] inputs acceptable in
      (out, ground (arith, accepted, same, enabled, some_tier, few))

module _ ⦃c : Convex⦄ where
  -- A signed-in creator who replaces the tiers of their own show before it starts, by one to five
  -- inputs of which one at least is enabled, each with a name, a duration and a price in range, no two
  -- of one name in lower case, is not refused.
  pub replace_tiers-accepts :
      (lower : Text → Text) (env : Env) (show_id creator_id : ℕ) (s : Show)
      (inputs : List TierInput) (db : Db)
      → require_creator_id env db ≡ ok creator_id
      → show_for_creator show_id creator_id db ≡ ok s
      → s.status ≡ ShowStatus.created
      → AreAcceptable lower [] inputs
      → 1 ≤ length inputs
      → length inputs ≤ max_tiers
      → any (λ i. i.enabled) inputs ≡ true
      → (db' : Db) × (replace_tiers lower env show_id inputs db ≡ ok db')
  unfolding replace_tiers
  replace_tiers-accepts lower env show_id creator_id s inputs db signed_in own draft acceptable
        some_tier few enabled =
      let (out, accepted) = checked-accepts lower show_id inputs acceptable some_tier few enabled in
      (
        record db {
          tiers =
              insert_tiers out (delete_all (collect (λ t. t.show_id == show_id) db.tiers) db.tiers);
        },
        ground (arith, signed_in, own, draft, accepted),
      )

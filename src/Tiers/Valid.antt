-- ===== src/Tiers/Valid.antt =====
-- What a tier configuration that is accepted looks like (frontend/convex/tiers.ts, `replace`).
use bling.Prelude.{
  ℕ, suc, ◌*◌, ◌≤◌, ◌≡◌, inl, inr, refl, Bool, true, false, Option, none, some, List, [], ◌∷◌, ◌++◌,
  arith, ◌==◌, any, length, map, Bool-cases, subst, sym, ap,
}
use bling.Prelude.Int.{ℤ, pos, negsuc}
use bling.Prelude.Result.{ok, Result-cases}
use bling.Store.Interface.{Convex}
use bling.Store.Rows.{Row}
use bling.Store.Queries.{Table, next_id, collect, insert, delete_all, Every, Every-insert}
use bling.Store.Collecting.{collect-insert, collect-delete_all, get-delete_all}
use bling.Schema.Docs.{ShowTier, Text}
use bling.Schema.Text.{trim, has_length}
use bling.Schema.State.{Env, Db}
use bling.Tiers.{
  TierInput, max_tiers, is_duration, is_price, whole, text_eq, normalize, checked, insert_tiers,
  replace_tiers,
}

-- What the fields of a tier promise to the callers: a name, a duration from half a minute to an hour,
-- and a price that is 0 or that Stripe can charge.
pub record IsTier (t : ShowTier) : Type 0 where
  pub named : has_length 1 40 t.name ≡ true
  pub long : is_duration t.call_duration_seconds ≡ true
  pub priced : is_price t.price_cents ≡ true
  pub ranked : t.priority_rank ≤ 100 * max_tiers

-- The tier that an input asks for, with its rank.
abbrev pub tier_of : (show_id : ℕ) → TierInput → (seconds cents rank : ℕ) → ShowTier
tier_of show_id input seconds cents rank = record {
  show_id = show_id;
  name = trim input.name;
  priority_rank = rank;
  call_duration_seconds = seconds;
  price_cents = cents;
  enabled = input.enabled;
}

-- The tiers that inputs ask for, in their order, each ranked 100 above the next, with fields in range.
pub data AreRanked (show_id : ℕ) : List TierInput → List ShowTier → Type 0 where
  last : AreRanked show_id [] []
  above :
      {input : TierInput} {inputs : List TierInput} {t : ShowTier} {rest : List ShowTier}
      (seconds cents : ℕ)
      → input.call_duration_seconds ≡ some (pos seconds)
      → input.price_cents ≡ some (pos cents)
      → t ≡ tier_of show_id input seconds cents (suc (length inputs) * 100)
      → has_length 1 40 (trim input.name) ≡ true
      → is_duration seconds ≡ true
      → is_price cents ≡ true
      → AreRanked show_id inputs rest
      → AreRanked show_id (input ∷ inputs) (t ∷ rest)

whole-passes :
    (p : ℕ → Bool) (x : Option ℤ) (n : ℕ) → whole p x ≡ ok n → (x ≡ some (pos n)) × (p n ≡ true)
whole-passes p none n h = ground arith
whole-passes p (some (negsuc k)) n h = ground arith
whole-passes p (some (pos k)) n h = elim (Bool-cases (p k)) [
  | inl passes ↦ ground arith
  | inr fails ↦ ground arith
]

module _ (lower : Text → Text) where
  -- No name is among those given, or that of a later tier, in lower case.
  pub data AreDistinct : (seen : List Text) → List ShowTier → Type 0 where
    none_left : {seen : List Text} → AreDistinct seen []
    another :
        {seen : List Text} {t : ShowTier} {rest : List ShowTier}
        → any (text_eq (lower t.name)) seen ≡ false
        → AreDistinct (lower t.name ∷ seen) rest
        → AreDistinct seen (t ∷ rest)

  normalize-AreRanked :
      (show_id : ℕ) (seen : List Text) (inputs : List TierInput) (out : List ShowTier)
      → normalize lower show_id seen inputs ≡ ok out
      → AreRanked show_id inputs out × AreDistinct seen out × (length out ≡ length inputs)
  unfolding normalize
  normalize-AreRanked show_id seen [] out h =
      subst (λ o. AreRanked show_id [] o × AreDistinct seen o × (length o ≡ 0)) {x = []} {y = out}
        (ground arith) (last, none_left, refl)
  normalize-AreRanked show_id seen (input ∷ rest) out h =
      elim (Result-cases (whole is_duration input.call_duration_seconds)) [
        | inl (x, failing) ↦ ground arith
        | inr (seconds, long) ↦ elim (Result-cases (whole is_price input.price_cents)) [
          | inl (x, failing) ↦ ground arith
          | inr (cents, priced) ↦
              elim (Result-cases (normalize lower show_id (lower (trim input.name) ∷ seen) rest)) [
                | inl (x, failing) ↦ ground arith
                | inr (others, normal) ↦
                    let (ranked, distinct, count) =
                      normalize-AreRanked show_id (lower (trim input.name) ∷ seen) rest others
                        normal in
                    let seconds_in =
                      whole-passes is_duration input.call_duration_seconds seconds long in
                    let cents_in = whole-passes is_price input.price_cents cents priced in
                    subst
                      (λ o.
                        AreRanked show_id (input ∷ rest) o
                        × AreDistinct seen o
                        × (length o ≡ suc (length rest)))
                      {x = tier_of show_id input seconds cents (suc (length rest) * 100) ∷ others}
                      {y = out} (ground arith)
                      (
                        above seconds cents seconds_in.0 cents_in.0 refl (ground arith) seconds_in.1
                            cents_in.1 ranked,
                        another (ground arith) distinct,
                        ap suc count,
                      )
              ]
        ]
      ]

  -- What a configuration that passes the checks has.
  pub record IsConfiguration (show_id : ℕ) (inputs : List TierInput) (tiers : List ShowTier)
      : Type 0 where
    pub ranked : AreRanked show_id inputs tiers
    pub distinct : AreDistinct [] tiers
    pub all_kept : length tiers ≡ length inputs
    pub few : (1 ≤ length tiers) × (length tiers ≤ max_tiers)
    pub one_enabled : any (λ t. t.enabled) tiers ≡ true

  checked-IsConfiguration :
      (show_id : ℕ) (inputs : List TierInput) (out : List ShowTier)
      → checked lower show_id inputs ≡ ok out
      → IsConfiguration show_id inputs out
  unfolding checked
  checked-IsConfiguration show_id inputs out h =
      elim (Result-cases (normalize lower show_id [] inputs)) [
        | inl (x, failing) ↦ ground arith
        | inr (normal, e) ↦
            let normalized : normalize lower show_id [] inputs ≡ ok out = ground arith in
            let (ranked, distinct, count) = normalize-AreRanked show_id [] inputs out normalized in
            record {
              ranked = ranked;
              distinct = distinct;
              all_kept = count;
              few = (ground (arith, count), ground (arith, count));
              one_enabled = ground arith;
            }
      ]

AreRanked-IsTier :
    (show_id : ℕ) (input : TierInput) (seconds cents rank : ℕ)
    → has_length 1 40 (trim input.name) ≡ true
    → is_duration seconds ≡ true
    → is_price cents ≡ true
    → rank ≤ 100 * max_tiers
    → IsTier (tier_of show_id input seconds cents rank)
AreRanked-IsTier show_id input seconds cents rank name long priced ranked = record {
  named = name;
  long = long;
  priced = priced;
  ranked = ranked;
}

-- The documents of rows, without their ids.
abbrev pub documents : {D : Type 0} → List (Row D) → List D
documents rows = map (λ r. r.1) rows

module _ ⦃c : Convex⦄ where
  insert_tiers-Every :
      (show_id : ℕ) (inputs : List TierInput) (tiers : List ShowTier) (t : Table ShowTier)
      → AreRanked show_id inputs tiers
      → length inputs ≤ max_tiers
      → Every IsTier t
      → Every IsTier (insert_tiers tiers t)
  unfolding insert_tiers
  insert_tiers-Every show_id [] [] t last few h = h
  insert_tiers-Every show_id [] (d ∷ ds) t x few h = elim x [ ]
  insert_tiers-Every show_id (input ∷ inputs) [] t x few h = elim x [ ]
  insert_tiers-Every show_id (input ∷ inputs) (d ∷ ds) t
        (above seconds cents a b made name long priced more) few h =
      insert_tiers-Every show_id inputs ds (insert d t) more (ground arith) (
        Every-insert IsTier d t
          (subst IsTier (sym made) (
            AreRanked-IsTier show_id input seconds cents (suc (length inputs) * 100) name long
              priced (ground arith)))
          h)

  documents-append :
      (rs : List (Row ShowTier)) (r : Row ShowTier)
      → documents (rs ++ r ∷ []) ≡ documents rs ++ r.1 ∷ []
  documents-append [] r = refl
  documents-append (x ∷ rs) r = ap (λ l. x.1 ∷ l) (documents-append rs r)

  append_nothing : (a : List ShowTier) → a ++ [] ≡ a
  append_nothing [] = refl
  append_nothing (x ∷ a) = ap (λ l. x ∷ l) (append_nothing a)

  append_move :
      (a : List ShowTier) (d : ShowTier) (b : List ShowTier) → (a ++ d ∷ []) ++ b ≡ a ++ d ∷ b
  append_move [] d b = refl
  append_move (x ∷ a) d b = ap (λ l. x ∷ l) (append_move a d b)

  collect-insert_tiers :
      (show_id : ℕ) (inputs : List TierInput) (tiers : List ShowTier) (t : Table ShowTier)
      → AreRanked show_id inputs tiers
      → documents (collect (λ d. d.show_id == show_id) (insert_tiers tiers t))
        ≡ documents (collect (λ d. d.show_id == show_id) t) ++ tiers
  unfolding insert_tiers
  collect-insert_tiers show_id [] [] t last =
      sym (append_nothing (documents (collect (λ d. d.show_id == show_id) t)))
  collect-insert_tiers show_id [] (d ∷ ds) t x = elim x [ ]
  collect-insert_tiers show_id (input ∷ inputs) [] t x = elim x [ ]
  collect-insert_tiers show_id (input ∷ inputs) (d ∷ ds) t
        (above seconds cents a b made name long priced more) =
      ground (
        arith,
        made,
        collect-insert_tiers show_id inputs ds (insert d t) more,
        collect-insert (λ d. d.show_id == show_id) d t,
        documents-append (collect (λ d. d.show_id == show_id) t) (next_id t, d),
        append_move (documents (collect (λ d. d.show_id == show_id) t)) d ds,
      )

  -- The configuration that replaces one, in place of the show's tiers.
  replaced :
      (lower : Text → Text) (env : Env) (show_id : ℕ) (inputs : List TierInput) (db db' : Db)
      → replace_tiers lower env show_id inputs db ≡ ok db'
      → (out : List ShowTier) × (checked lower show_id inputs ≡ ok out)
        × (db'.tiers
            ≡ insert_tiers out (delete_all (collect (λ t. t.show_id == show_id) db.tiers) db.tiers))
  unfolding replace_tiers
  replaced lower env show_id inputs db db' h = elim (Result-cases (checked lower show_id inputs)) [
    | inl (x, failing) ↦ ground arith
    | inr (out, e) ↦ (out, e, ground arith)
  ]

  -- Where a creator replaces the tiers of a show and that succeeds, the tiers of the show are then those
  -- that the inputs ask for, in the order of the inputs: from one to five, at least one of them
  -- enabled, each with a name, a duration and a price in range, each ranked 100 above the next, no two
  -- of one name in lower case.
  pub replace_tiers-IsConfiguration :
      (lower : Text → Text) (env : Env) (show_id : ℕ) (inputs : List TierInput) (db db' : Db)
      → replace_tiers lower env show_id inputs db ≡ ok db'
      → IsConfiguration lower show_id inputs
          (documents (collect (λ t. t.show_id == show_id) db'.tiers))
  replace_tiers-IsConfiguration lower env show_id inputs db db' h =
      let (out, accepted, written) = replaced lower env show_id inputs db db' h in
      let config = checked-IsConfiguration lower show_id inputs out accepted in
      let left = delete_all (collect (λ t. t.show_id == show_id) db.tiers) db.tiers in
      subst (IsConfiguration lower show_id inputs)
        (ground (
          arith,
          written,
          collect-insert_tiers show_id inputs out left config.ranked,
          collect-delete_all (λ t. t.show_id == show_id) db.tiers,
        ))
        config

  pub replace_tiers-Every :
      (lower : Text → Text) (env : Env) (show_id : ℕ) (inputs : List TierInput) (db db' : Db)
      → replace_tiers lower env show_id inputs db ≡ ok db'
      → Every IsTier db.tiers
      → Every IsTier db'.tiers
  replace_tiers-Every lower env show_id inputs db db' h every =
      let (out, accepted, written) = replaced lower env show_id inputs db db' h in
      let config = checked-IsConfiguration lower show_id inputs out accepted in
      let gone = collect (λ t. t.show_id == show_id) db.tiers in
      subst (Every IsTier) (sym written) (
        insert_tiers-Every show_id inputs out (delete_all gone db.tiers) config.ranked
          (ground (arith, config.all_kept, config.few))
          (λ i d at_i. every i d (get-delete_all gone db.tiers i d at_i)))

-- ===== src/Shows/Lifecycle.antt =====
-- What starting a show gives (frontend/convex/shows.ts, `start`).
use bling.Prelude.{ℕ, ◌≡◌, ◌⊎◌, inl, inr, false, none, some, arith, Bool-cases, subst, sym}
use bling.Prelude.Result.{ok, Result-cases}
use bling.Accounts.{require_creator_id, show_for_creator}
use bling.Store.Interface.{Convex}
use bling.Store.Queries.{Table, get, first, first-none, insert, replace, get-insert, get-replace}
use bling.Schema.Status.{ShowStatus, show_eq}
use bling.Schema.Docs.{Show}
use bling.Schema.State.{Env, Db}
use bling.Shows.{check_tiers, go_live, start, is_live_of}

module _ ⦃c : Convex⦄ where
  -- No creator has two live shows.
  abbrev pub OneLive : Table Show → Type 0
  OneLive t =
      (i j : ℕ) (s u : Show)
      → get t i ≡ some s
      → get t j ≡ some u
      → s.status ≡ ShowStatus.live
      → u.status ≡ ShowStatus.live
      → s.creator_id ≡ u.creator_id
      → i ≡ j

  -- A show goes live where its creator has no other live show.
  OneLive-replace :
      (i : ℕ) (d e : Show) (t : Table Show)
      → get t i ≡ some e
      → first (is_live_of d.creator_id) t ≡ none
      → OneLive t
      → OneLive (replace i d t)
  OneLive-replace i d e t at_i free h j k x y = ground (
    arith,
    get-replace i d e t j at_i,
    get-replace i d e t k at_i,
    h j k x y,
    first-none (is_live_of d.creator_id) t j x free,
    first-none (is_live_of d.creator_id) t k y free,
  )

  pub show_for_creator-get :
      (sid creator_id : ℕ) (db : Db) (s : Show)
      → show_for_creator sid creator_id db ≡ ok s
      → (get db.shows sid ≡ some s) × (s.creator_id ≡ creator_id)
  unfolding show_for_creator
  show_for_creator-get sid creator_id db s h = (ground arith, ground arith)

  go_live-shows :
      (env : Env) (sid creator_id : ℕ) (s : Show) (db db' : Db)
      → go_live env sid creator_id s db ≡ ok db'
      → (first (is_live_of creator_id) db.shows ≡ none)
        × (check_tiers sid creator_id db ≡ ok tt)
        × (db'.shows
            ≡ replace sid
                (record s { status = ShowStatus.live; started_at = some env.now })
                db.shows)
  unfolding go_live
  go_live-shows env sid creator_id s db db' h = (ground arith, ground arith, ground arith)

  -- A show that is not live takes no place.
  pub OneLive-quiet :
      (i : ℕ) (d e : Show) (t : Table Show)
      → get t i ≡ some e
      → show_eq d.status ShowStatus.live ≡ false
      → OneLive t
      → OneLive (replace i d t)
  OneLive-quiet i d e t at_i quiet h j k x y =
      ground (arith, get-replace i d e t j at_i, get-replace i d e t k at_i, h j k x y)

  pub OneLive-insert :
      (d : Show) (t : Table Show)
      → show_eq d.status ShowStatus.live ≡ false
      → OneLive t
      → OneLive (insert d t)
  OneLive-insert d t quiet h j k x y = ground (arith, get-insert d t j, get-insert d t k, h j k x y)

  -- A show that is started is one of the creator's own, has an enabled tier, and is already live or
  -- goes live where the creator has no other live show.
  pub start-cases :
      (env : Env) (sid : ℕ) (db db' : Db)
      → start env sid db ≡ ok db'
      → (s : Show) × (get db.shows sid ≡ some s)
        × (require_creator_id env db ≡ ok s.creator_id)
        × (((s.status ≡ ShowStatus.live) × (db' ≡ db))
            ⊎ ((first (is_live_of s.creator_id) db.shows ≡ none)
                × (check_tiers sid s.creator_id db ≡ ok tt)
                × (db'.shows
                    ≡ replace sid
                        (record s { status = ShowStatus.live; started_at = some env.now })
                        db.shows)))
  unfolding start
  start-cases env sid db db' h = elim (Result-cases (require_creator_id env db)) [
    | inl (x, failing) ↦ ground arith
    | inr (creator_id, signed_in) ↦ elim (Result-cases (show_for_creator sid creator_id db)) [
      | inl (x, failing) ↦ ground arith
      | inr (s, owned) ↦
          let (there, own) = show_for_creator-get sid creator_id db s owned in
          elim (Bool-cases (show_eq s.status ShowStatus.live)) [
            | inl again ↦ (s, there, ground arith, inl (ground arith, ground arith))
            | inr quiet ↦
                let all = go_live-shows env sid creator_id s db db' (ground arith) in
                (s, there, ground arith, inr (ground (arith, all.0), ground (arith, all.1), all.2))
          ]
    ]
  ]

  pub start-OneLive :
      (env : Env) (sid : ℕ) (db db' : Db)
      → start env sid db ≡ ok db'
      → OneLive db.shows
      → OneLive db'.shows
  start-OneLive env sid db db' h one =
      let (s, there, signed_in, how) = start-cases env sid db db' h in
      elim how [
        | inl (live, same) ↦ subst (λ (d : Db). OneLive d.shows) (sym same) one
        | inr (free, tiers, shows) ↦ subst OneLive (sym shows) (
            OneLive-replace sid (record s { status = ShowStatus.live; started_at = some env.now }) s
              db.shows there free one)
      ]

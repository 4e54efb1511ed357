-- ===== src/Accounts.antt =====
-- Who calls a function (frontend/convex/lib/auth.ts).
use bling.Prelude.{
  ℕ, Bool, false, Option, none, some, not, ◌||◌, ◌==◌, if◌then◌else◌, String, str_eq,
}
use bling.Prelude.Result.{Result, ok, err, unauthenticated, show_not_found, ◌>>=◌}
use bling.Store.Interface.{Convex}
use bling.Store.Queries.{get}
use bling.Schema.Docs.{Show}
use bling.Schema.State.{Env, Db}

-- An optional text that JavaScript takes for true: there, and not empty.
abbrev pub truthy : Option String → Bool
truthy none = false
truthy (some s) = not (str_eq s "")

unfoldable pub require_user_id : Env → Result ℕ
require_user_id env = elim env.user [ none ↦ err unauthenticated | some id ↦ ok id ]

module _ ⦃c : Convex⦄ where
  unfoldable pub require_creator_id : Env → Db → Result ℕ
  unfolding require_user_id
  require_creator_id env db = do
    id ← require_user_id env
    elim (get db.users id) [
      | none ↦ err unauthenticated
      | some user ↦
          if user.is_anonymous || not (truthy user.username) then err unauthenticated else ok id
    ]

  -- `showForCreator` of frontend/convex/shows.ts: another creator's show is as good as missing.
  unfoldable pub show_for_creator : (show_id creator_id : ℕ) → Db → Result Show
  show_for_creator show_id creator_id db = elim (get db.shows show_id) [
    | none ↦ err show_not_found
    | some show ↦ if show.creator_id == creator_id then ok show else err show_not_found
  ]

-- ===== src/Social.antt =====
-- The public projections of shows (the show hooks of frontend/convex/lib/social.ts, and
-- `queueLiveAlert` of frontend/convex/liveAlerts.ts).
use bling.Prelude.{
  ℕ, ◌+◌, Bool, true, false, not, Option, none, some, List, [], ◌==◌, ltb, if◌then◌else◌, opt_eq,
}
use bling.Store.Interface.{Convex}
use bling.Store.Rows.{Row}
use bling.Store.Queries.{first, insert, replace}
use bling.Schema.Docs.{Show, Profile}
use bling.Schema.State.{Social, Scheduled, run_at, collect_alerts}

-- Six hours.
abbrev pub alert_cooldown_ms : ℕ
alert_cooldown_ms = 21600000

module _ ⦃c : Convex⦄ where
  unfoldable pub profile_for_user : ℕ → Social → Option (Row Profile)
  profile_for_user user_id s = first (λ p. p.user_id == user_id) s.profiles

  -- Changes the profile of a user, if there is one.
  unfoldable pub patch_profile : ℕ → (Profile → Profile) → Social → Social
  unfolding profile_for_user
  patch_profile user_id f s = record s {
    profiles = elim (profile_for_user user_id s) [
      | none ↦ s.profiles
      | some (id, p) ↦ replace id (f p) s.profiles
    ];
  }

  unfoldable pub on_show_created : (creator_id : ℕ) → Social → Social
  unfolding patch_profile
  on_show_created creator_id s = patch_profile creator_id (λ p. record p { published = true }) s

  unfoldable pub on_show_scheduled : (creator_id : ℕ) → Option ℕ → Social → Social
  unfolding patch_profile
  on_show_scheduled creator_id scheduled_for s =
      patch_profile creator_id (λ p. record p { next_hotline_at = scheduled_for }) s

  -- An alert is due unless the creator's last one is less than six hours old.
  abbrev pub alert_is_due : (now : ℕ) → Profile → Bool
  alert_is_due now p = elim p.last_live_alert_at [
    | none ↦ true
    | some at ↦ not (ltb now (at + alert_cooldown_ms))
  ]

  unfoldable pub queue_live_alert : (now : ℕ) → Row Show → Social → Social × List Scheduled
  unfolding profile_for_user
  queue_live_alert now (show_id, show) s = elim (profile_for_user show.creator_id s) [
    | none ↦ (s, [])
    | some (id, p) ↦
        if alert_is_due now p
        then (
          record s {
            profiles = replace id (record p { last_live_alert_at = some now }) s.profiles;
          },
          run_at now (collect_alerts show_id),
        )
        else (s, [])
  ]

  abbrev pub live_profile : Row Show → Profile → Profile
  live_profile (show_id, show) p = record p {
    published = true;
    is_live = true;
    live_show_id = some show_id;
    live_started_at = show.started_at;
    next_hotline_at = none;
  }

  -- Going live records one live event for each show, and alerts followers with the first.
  unfoldable pub on_show_live : (now : ℕ) → Row Show → Social → Social × List Scheduled
  unfolding patch_profile queue_live_alert
  on_show_live now (show_id, show) s =
      let shown = patch_profile show.creator_id (live_profile (show_id, show)) s in
      elim (first (λ e. e.show_id == show_id) shown.live_events) [
        | some existing ↦ (shown, [])
        | none ↦
            queue_live_alert now (show_id, show)
              (record shown {
                live_events =
                    insert (record { creator_id = show.creator_id; show_id = show_id })
                      shown.live_events;
              })
      ]

  -- Only the profile that shows this show as live is changed.
  unfoldable pub on_show_ended : Row Show → Social → Social
  unfolding patch_profile
  on_show_ended (show_id, show) s =
      patch_profile show.creator_id
        (λ p.
          if opt_eq p.live_show_id show_id
          then record p { is_live = false; live_show_id = none; live_started_at = none }
          else p)
        s

-- ===== src/Platform/Notifications/Reading.antt =====
-- src/modules/notifications/notifications.service.ts: `findForUser`, `unreadCount`, `markRead`,
-- `markAllRead`.
use uza_mobility_bn.Base.{
  ℕ, ◌≡◌, refl, Bool, true, some, List, [], ◌∷◌, arith, All, inl, inr, Option-cases, Bool-cases,
  not, ◌&&◌, ◌||◌, ◌==◌,
}
use uza_mobility_bn.Js.{Js}
use uza_mobility_bn.Db.{Prisma, PrismaLaws}
use uza_mobility_bn.Schema.Rows.{Notification}
use uza_mobility_bn.Schema.World.{World}
use uza_mobility_bn.Api.{Action, not_found, ◌>>=◌, ◌>>◌, pure, gets, modify, throw_if, require}
use uza_mobility_bn.Platform.Pages.{PageQuery, Page, find_page}

module _ ⦃N : Js⦄ where
  abbrev pub as_read : Notification → Notification
  as_read notification = record notification { is_read = true }

  abbrev pub is_unread_of : ℕ → ℕ → Notification → Bool
  is_unread_of user_id _ notification = notification.user_id == user_id && not notification.is_read

  -- `{ id: notificationId, userId }`
  abbrev pub is_own : ℕ → ℕ → ℕ → Notification → Bool
  is_own user_id notification_id id notification =
      id == notification_id && notification.user_id == user_id

  module _ ⦃P : Prisma⦄ where
    open P use {find_unique, find_many, count, update_many}

    abbrev shown_to : ℕ → Bool → ℕ → Notification → Bool
    shown_to user_id unread_only _ notification =
        notification.user_id == user_id && (not unread_only || not notification.is_read)

    -- The page, and `meta.unreadCount`.
    unfoldable pub find_for_user : ℕ → Bool → PageQuery → World → Page (ℕ × Notification) × ℕ
    unfolding find_page
    find_for_user user_id unread_only pages w = (
      find_page w.notifications (shown_to user_id unread_only) 20 pages,
      count w.notifications (is_unread_of user_id),
    )

    unfoldable pub unread_count : ℕ → World → ℕ
    unread_count user_id w = count w.notifications (is_unread_of user_id)

    unfoldable pub mark_read : ℕ → ℕ → Action World Notification
    mark_read user_id notification_id = do
      updated ← gets (λ w. count w.notifications (is_own user_id notification_id))
      modify (λ w. record w {
        notifications = update_many w.notifications (is_own user_id notification_id) as_read;
      })
      throw_if (updated == 0) (not_found "Notification not found")
      found ← gets (λ w. find_unique w.notifications notification_id)
      require found (not_found "Notification not found")

    -- It returns the number of rows that it marked.
    unfoldable pub mark_all_read : ℕ → Action World ℕ
    mark_all_read user_id = do
      marked ← gets (λ w. count w.notifications (is_unread_of user_id))
      modify (λ w. record w {
        notifications = update_many w.notifications (is_unread_of user_id) as_read;
      })
      pure marked

    module _ ⦃L : PrismaLaws⦄ where
      open L use {find-update_many, find_many-sound, count-zero}

      marked-read :
          (user_id id : ℕ) (w : World) (r : Notification)
          → find_unique (update_many w.notifications (is_unread_of user_id) as_read) id ≡ some r
          → is_unread_of user_id id r ≡ true
          → ⊥
      marked-read user_id id w r there unread =
          elim (Option-cases (find_unique w.notifications id)) [
            | inl n ↦ absurd (ground (arith, rw find-update_many at there, n))
            | inr (before, f) ↦ elim (Bool-cases (is_unread_of user_id id before)) [
              | inl u ↦ absurd (ground (arith, rw find-update_many at there, f, u, unread))
              | inr u ↦ absurd (ground (arith, rw find-update_many at there, f, u, unread))
            ]
          ]

      none_found :
          (user_id : ℕ) (w : World) (es : List (ℕ × Notification))
          → All
              (λ e.
                (find_unique (update_many w.notifications (is_unread_of user_id) as_read) e.0
                  ≡ some e.1)
                × (is_unread_of user_id e.0 e.1 ≡ true))
              es
          → es ≡ []
      none_found user_id w [] a = refl
      none_found user_id w ((id, r) ∷ es) ((there, unread), a) =
          absurd (marked-read user_id id w r there unread)

      -- After a buyer marks all notifications as read, none is unread.
      pub mark_all_read-unread_count :
          (user_id : ℕ) (w : World) → unread_count user_id (mark_all_read user_id w).1 ≡ 0
      unfolding mark_all_read unread_count
      mark_all_read-unread_count user_id w =
          let after = update_many w.notifications (is_unread_of user_id) as_read in
          count-zero after (is_unread_of user_id) (
            none_found user_id w (find_many after (is_unread_of user_id))
              (find_many-sound after (is_unread_of user_id)))

-- ===== src/Platform/Notifications.antt =====
-- src/modules/notifications/notifications.service.ts: a notification is stored; the push over
-- the web socket and the e-mail, which nothing waits for, leave no trace in the data base.
pub mod Reading
use uza_mobility_bn.Base.{ℕ, Bool, false, String, List, [], ◌∷◌, ◌&&◌, any, not, is_some}
use uza_mobility_bn.Js.{Js}
use uza_mobility_bn.Db.{Prisma}
use uza_mobility_bn.Schema.Requests.{NotificationType}
use uza_mobility_bn.Schema.Rows.{User, Notification, Metadata}
use uza_mobility_bn.Schema.World.{World}
use uza_mobility_bn.Api.{Action, ok}
use text.Mathlib.Text.{◌==◌ as str_eq}

module _ ⦃N : Js⦄ where
  -- What `sendToRoleNames` is given: a notification with no addressee yet.
  pub record Message : Type 0 where
    pub kind : NotificationType
    pub title : String
    pub body : String
    pub metadata : Metadata

  abbrev pub addressed : ℕ → Message → Notification
  addressed user_id m = record {
    user_id = user_id;
    kind = m.kind;
    title = m.title;
    body = m.body;
    metadata = m.metadata;
    is_read = false;
  }

  has_role : List String → User → Bool
  has_role names user = any (λ role. any (str_eq role) names) user.roles

  receives : List String → ℕ → User → Bool
  unfolding has_role
  receives names id user = user.is_active && not (is_some user.deleted_at) && has_role names user

  module _ ⦃P : Prisma⦄ where
    open P use {Table, insert, find_many}

    unfoldable pub send : ℕ → Message → Action World (Unit {0})
    send user_id m w =
        (ok tt, record w { notifications = insert w.notifications (addressed user_id m) })

    -- A `send` for each user that was found, each of which only adds a row.
    pub add_for_each : List (ℕ × User) → Message → Table Notification → Table Notification
    add_for_each [] m t = t
    add_for_each ((user_id, _) ∷ users) m t = add_for_each users m (insert t (addressed user_id m))

    unfoldable pub send_to_role_names : List String → Message → Action World (Unit {0})
    unfolding receives
    send_to_role_names names m w = (
      ok tt,
      record w {
        notifications = add_for_each (find_many w.users (receives names)) m w.notifications;
      },
    )

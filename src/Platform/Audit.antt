-- ===== src/Platform/Audit.antt =====
-- src/common/audit/audit.service.ts: an entry in the activity log.
use uza_mobility_bn.Base.{ℕ, Option, some, String}
use uza_mobility_bn.Js.{Js}
use uza_mobility_bn.Db.{Prisma}
use uza_mobility_bn.Schema.Rows.{ActivityLog, Metadata}
use uza_mobility_bn.Schema.World.{World}
use uza_mobility_bn.Api.{Action, ok}
use uza_mobility_bn.Platform.Settings.{trimmed}

pub record RequestAuditContext : Type 0 where
  pub ip_address : Option String
  pub user_agent : Option String
  pub actor_email : Option String

module _ ⦃N : Js⦄ where
  build_create_data :
      ℕ → String → String → Option ℕ → RequestAuditContext → Option Metadata → ActivityLog
  build_create_data user_id action entity entity_id ctx metadata = record {
    user_id = some user_id;
    action = action;
    entity = some entity;
    entity_id = entity_id;
    ip_address = trimmed ctx.ip_address;
    user_agent = trimmed ctx.user_agent;
    metadata = metadata;
  }

  module _ ⦃P : Prisma⦄ where
    open P use {insert}

    -- `record({ userId, action, entity, entityId, ipAddress, userAgent, metadata })`
    unfoldable pub record_activity :
        ℕ
        → String
        → String
        → Option ℕ
        → RequestAuditContext
        → Option Metadata
        → Action World (Unit {0})
    unfolding build_create_data
    record_activity user_id action entity entity_id ctx metadata w = (
      ok tt,
      record w {
        activity_logs =
            insert w.activity_logs (build_create_data user_id action entity entity_id ctx metadata);
      },
    )

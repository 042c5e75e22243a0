-- ===== src/ChargingStations/Operators.antt =====
-- src/modules/charging-stations/charging-stations.service.ts: `applyOperator`,
-- `getOperatorProfileByUser`, `updateOperatorProfileByUser`, `adminApproveOperator`,
-- `adminRejectOperator`.
use uza_mobility_bn.Base.{
  ℕ, true, false, Option, none, some, String, List, [], ◌∷◌, not, ◌||◌, ◌==◌, is_some, get_or,
}
use uza_mobility_bn.Base.Text.{◌<>◌, ◌===◌}
use uza_mobility_bn.Db.Columns.{given, given_option}
use uza_mobility_bn.Js.{Js}
use uza_mobility_bn.Db.{Prisma}
use uza_mobility_bn.Schema.Charging.{OperatorStatus, operator_status_enum}
use uza_mobility_bn.Schema.Requests.{NotificationType}
use uza_mobility_bn.Schema.Rows.{Json}
use uza_mobility_bn.Schema.StationRows.{OperatorProfile, Role}
use uza_mobility_bn.Schema.World.{World}
use uza_mobility_bn.Api.{
  Action, bad_request, not_found, forbidden, conflict, ◌>>=◌, ◌>>◌, pure, gets, modify, throw_if,
  require,
}
use uza_mobility_bn.Platform.Notifications.{Message, send, send_to_role_names}
use uza_mobility_bn.Platform.Audit.{RequestAuditContext, record_activity}
use uza_mobility_bn.Platform.Roles.{has_text, with_role, resolve_permissions_for_role_names}
use text.Mathlib.Text.{◌==◌ as str_eq}

pub record CreateOperatorProfileDto : Type 0 where
  pub business_name : String
  pub business_reg_number : Option String
  pub contact_person : String
  pub phone : String
  pub email : String
  pub country : String
  pub city : String
  pub address : Option String
  pub description : Option String

pub record UpdateOperatorProfileDto : Type 0 where
  pub business_name : Option String
  pub business_reg_number : Option String
  pub contact_person : Option String
  pub phone : Option String
  pub email : Option String
  pub country : Option String
  pub city : Option String
  pub address : Option String
  pub description : Option String

unfoldable pub new_operator_profile : ℕ → CreateOperatorProfileDto → OperatorProfile
new_operator_profile user_id dto = record {
  user_id = user_id;
  business_name = dto.business_name;
  business_reg_number = dto.business_reg_number;
  contact_person = dto.contact_person;
  phone = dto.phone;
  email = dto.email;
  country = dto.country;
  city = dto.city;
  address = dto.address;
  description = dto.description;
  status = OperatorStatus.pending;
  is_verified = false;
  verified_at = none;
  admin_notes = none;
}

unfoldable pub with_operator_data : UpdateOperatorProfileDto → OperatorProfile → OperatorProfile
with_operator_data dto profile = record profile {
  business_name = given dto.business_name profile.business_name;
  business_reg_number = given_option dto.business_reg_number profile.business_reg_number;
  contact_person = given dto.contact_person profile.contact_person;
  phone = given dto.phone profile.phone;
  email = given dto.email profile.email;
  country = given dto.country profile.country;
  city = given dto.city profile.city;
  address = given_option dto.address profile.address;
  description = given_option dto.description profile.description;
}

abbrev pub as_approved_operator : ℕ → OperatorProfile → OperatorProfile
as_approved_operator now profile = record profile {
  status = OperatorStatus.active;
  is_verified = true;
  verified_at = some now;
}

abbrev pub as_rejected_operator : Option String → OperatorProfile → OperatorProfile
as_rejected_operator reason profile = record profile {
  status = OperatorStatus.rejected;
  is_verified = false;
  admin_notes = given_option reason profile.admin_notes;
}

module _ ⦃N : Js⦄ where
  operator_applied : ℕ → String → Message
  operator_applied operator_id business_name = record {
    kind = NotificationType.system_alert;
    title = "New charging operator application";
    body = business_name <> " applied to become a charging operator.";
    metadata = ("operatorId", Json.id operator_id) ∷ [];
  }

  operator_message : NotificationType → String → String → ℕ → Message
  operator_message kind title body operator_id = record {
    kind = kind;
    title = title;
    body = body;
    metadata = ("operatorId", Json.id operator_id) ∷ [];
  }

  module _ ⦃P : Prisma⦄ where
    open P use {find_unique, find_first, insert, update, new_id}

    -- `operatorProfile.findUnique({ where: { userId } })`
    abbrev pub operator_of_user : ℕ → World → Option (ℕ × OperatorProfile)
    operator_of_user user_id w =
        find_first w.operator_profiles (λ _ profile. profile.user_id == user_id)

    unfoldable pub apply_operator :
        ℕ → CreateOperatorProfileDto → RequestAuditContext → Action World (ℕ × OperatorProfile)
    unfolding new_operator_profile record_activity send_to_role_names operator_applied
    apply_operator user_id dto ctx = do
      existing ← gets (operator_of_user user_id)
      throw_if (is_some existing) (conflict "Operator profile already exists")
      operator_id ← gets (λ w. new_id w.operator_profiles)
      modify (λ w. record w {
        operator_profiles = insert w.operator_profiles (new_operator_profile user_id dto);
      })
      record_activity user_id "operators:applied" "OperatorProfile" (some operator_id) ctx (
          some (
            ("email", Json.nullable ctx.actor_email)
            ∷ ("businessName", Json.text dto.business_name)
            ∷ []))
      send_to_role_names ("MARKETPLACE_ADMIN" ∷ "SUPER_ADMIN" ∷ [])
          (operator_applied operator_id dto.business_name)
      pure (operator_id, new_operator_profile user_id dto)

    abbrev pub get_operator_profile_by_user : ℕ → Action World (ℕ × OperatorProfile)
    get_operator_profile_by_user user_id = do
      found ← gets (operator_of_user user_id)
      require found (not_found "Operator profile not found")

    role_names : ℕ → World → List String
    role_names user_id w = elim (find_unique w.users user_id) [ none ↦ [] | some u ↦ u.roles ]

    -- The tests on the status of a profile that its owner changes.
    unfoldable pub check_operator_update : ℕ → OperatorStatus → Action World (Unit {0})
    unfolding role_names
    check_operator_update user_id OperatorStatus.active = do
      permissions ← gets (λ w. resolve_permissions_for_role_names (role_names user_id w) w)
      throw_if (not (has_text permissions "*" || has_text permissions "stations:update"))
          (forbidden "Operator profile updates require an approved charging operator account")
    check_operator_update user_id OperatorStatus.suspended =
        throw_if true (forbidden "Suspended operator profiles cannot be updated")
    check_operator_update user_id _ = pure tt

    -- `fields` are the keys that the request gave.
    unfoldable pub update_operator_profile_by_user :
        ℕ → UpdateOperatorProfileDto → String → RequestAuditContext → Action World OperatorProfile
    unfolding check_operator_update with_operator_data record_activity
    update_operator_profile_by_user user_id dto fields ctx = do
      (operator_id, existing) ← get_operator_profile_by_user user_id
      check_operator_update user_id existing.status
      modify (λ w. record w {
        operator_profiles = update w.operator_profiles operator_id (with_operator_data dto);
      })
      record_activity user_id "operators:updated" "OperatorProfile" (some operator_id) ctx
          (some (("email", Json.nullable ctx.actor_email) ∷ ("fields", Json.text fields) ∷ []))
      pure (with_operator_data dto existing)

    abbrev pub get_operator_or_throw : ℕ → Action World OperatorProfile
    get_operator_or_throw operator_id = do
      found ← gets (λ w. find_unique w.operator_profiles operator_id)
      require found (not_found "Operator profile not found")

    abbrev pub charging_operator_role : World → Option (ℕ × Role)
    charging_operator_role w = find_first w.roles (λ _ role. str_eq role.name "CHARGING_OPERATOR")

    -- The transaction undoes the update of the profile where the role is missing, so the look-up
    -- stands first here.
    unfoldable pub admin_approve_operator :
        ℕ → ℕ → RequestAuditContext → Action World OperatorProfile
    unfolding record_activity send operator_message
    admin_approve_operator operator_id admin ctx = do
      operator ← get_operator_or_throw operator_id
      throw_if (operator.status === OperatorStatus.active)
          (bad_request "Operator is already active")
      found ← gets charging_operator_role
      _ ← require found (not_found "Role CHARGING_OPERATOR does not exist. Seed roles first.")
      now ← gets (λ w. w.now)
      modify (λ w. record w {
        operator_profiles = update w.operator_profiles operator_id (as_approved_operator now);
      })
      modify (λ w. record w {
        users = update w.users operator.user_id (with_role "CHARGING_OPERATOR");
      })
      record_activity admin "operators:approved" "OperatorProfile" (some operator_id) ctx (
          some (
            ("email", Json.nullable ctx.actor_email)
            ∷ ("businessName", Json.text operator.business_name)
            ∷ []))
      send operator.user_id (
          operator_message NotificationType.operator_application_approved
            "Operator application approved"
            "Your charging operator application is approved. You can now manage stations."
            operator_id)
      pure (as_approved_operator now operator)

    unfoldable pub admin_reject_operator :
        ℕ → ℕ → Option String → RequestAuditContext → Action World OperatorProfile
    unfolding record_activity send operator_message
    admin_reject_operator operator_id admin reason ctx = do
      operator ← get_operator_or_throw operator_id
      modify (λ w. record w {
        operator_profiles = update w.operator_profiles operator_id (as_rejected_operator reason);
      })
      record_activity admin "operators:rejected" "OperatorProfile" (some operator_id) ctx
          (some (("email", Json.nullable ctx.actor_email) ∷ ("reason", Json.nullable reason) ∷ []))
      send operator.user_id (
          operator_message NotificationType.operator_application_rejected
            "Operator application rejected"
            (get_or reason "Your charging operator application was not approved.") operator_id)
      pure (as_rejected_operator reason operator)

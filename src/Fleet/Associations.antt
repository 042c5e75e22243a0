-- ===== src/Fleet/Associations.antt =====
-- src/modules/fleet/fleet.service.ts: `createAssociation`, `addAssociationMember`.
use uza_mobility_bn.Base.{ℕ, Option, String}
use uza_mobility_bn.Js.{Js}
use uza_mobility_bn.Db.{Prisma}
use uza_mobility_bn.Schema.RequestRows.{Association, AssociationMember}
use uza_mobility_bn.Schema.World.{World}
use uza_mobility_bn.Api.{Action, not_found, ◌>>=◌, ◌>>◌, pure, gets, modify, require}

pub record AddAssociationMemberDto : Type 0 where
  pub member_name : String
  pub user_id : Option ℕ
  pub phone : Option String
  pub email : Option String
  pub role : Option String

abbrev pub new_member : ℕ → AddAssociationMemberDto → AssociationMember
new_member association_id dto = record {
  association_id = association_id;
  user_id = dto.user_id;
  member_name = dto.member_name;
  phone = dto.phone;
  email = dto.email;
  role = dto.role;
}

module _ ⦃N : Js⦄ ⦃P : Prisma⦄ where
  open P use {find_unique, insert, new_id}

  -- The call gives the row as it is to be stored.
  unfoldable pub create_association : Association → Action World (ℕ × Association)
  create_association dto = do
    association_id ← gets (λ w. new_id w.associations)
    modify (λ w. record w { associations = insert w.associations dto })
    pure (association_id, dto)

  abbrev pub get_association_or_throw : ℕ → Action World Association
  get_association_or_throw association_id = do
    found ← gets (λ w. find_unique w.associations association_id)
    require found (not_found "Association not found")

  unfoldable pub add_association_member :
      ℕ → AddAssociationMemberDto → Action World (ℕ × AssociationMember)
  add_association_member association_id dto = do
    _ ← get_association_or_throw association_id
    member_id ← gets (λ w. new_id w.association_members)
    modify (λ w. record w {
      association_members = insert w.association_members (new_member association_id dto);
    })
    pure (member_id, new_member association_id dto)

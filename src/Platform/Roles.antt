-- ===== src/Platform/Roles.antt =====
-- src/modules/auth/rbac.service.ts: the permissions that a user's roles carry.
use uza_mobility_bn.Base.{ℕ, Bool, String, List, [], ◌∷◌, ◌++◌, any, if◌then◌else◌}
use uza_mobility_bn.Js.{Js}
use uza_mobility_bn.Db.{Prisma}
use uza_mobility_bn.Schema.Rows.{User}
use uza_mobility_bn.Schema.StationRows.{Role}
use uza_mobility_bn.Schema.World.{World}
use text.Mathlib.Text.{◌==◌ as str_eq}

abbrev pub has_text : List String → String → Bool
has_text xs s = any (str_eq s) xs

-- `Set.add`, in the order of insertion
abbrev pub set_add : List String → String → List String
set_add [] s = s ∷ []
set_add (x ∷ xs) s = let rest = set_add xs s in if str_eq x s then x ∷ xs else x ∷ rest

add_all : List String → List String → List String
add_all set [] = set
add_all set (s ∷ ss) = add_all (set_add set s) ss

permissions_of : List String → List (ℕ × Role) → List String
unfolding add_all
permissions_of set [] = set
permissions_of set ((_, role) ∷ roles) = permissions_of (add_all set role.permissions) roles

-- The row of `user_roles`, unless there is one: the user's roles are its names here.
abbrev pub with_role : String → User → User
with_role name user = record user {
  roles = if has_text user.roles name then user.roles else user.roles ++ (name ∷ []);
}

module _ ⦃N : Js⦄ ⦃P : Prisma⦄ where
  open P use {find_many}

  unfoldable pub resolve_permissions_for_role_names : List String → World → List String
  unfolding permissions_of
  resolve_permissions_for_role_names names w =
      if has_text names "SUPER_ADMIN"
      then "*" ∷ []
      else permissions_of [] (find_many w.roles (λ _ role. has_text names role.name))

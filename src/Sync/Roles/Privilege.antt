-- ===== src/Sync/Roles/Privilege.antt =====
-- Clamping a grant with the roles of the bearer.
use nisaba.Prelude.{◌≤◌, ◌≡◌, refl, ◌∙◌, ◌&&◌, some, List, [], ◌∷◌, arith}
use nisaba.Sync.Roles.{
  Role, author, reviewer, read_only, can_push_updates, rank, least_privileged, max_from, max_role,
  strongest_role,
}

strongest_step :
    (r s : Role) (rs : List Role)
    → strongest_role (r ∷ s ∷ rs) ≡ strongest_role (max_from r (s ∷ []) ∷ rs)
unfolding strongest_role max_from rank
strongest_step author author rs = refl
strongest_step author reviewer rs = refl
strongest_step author read_only rs = refl
strongest_step reviewer author rs = refl
strongest_step reviewer reviewer rs = refl
strongest_step reviewer read_only rs = refl
strongest_step read_only author rs = refl
strongest_step read_only reviewer rs = refl
strongest_step read_only read_only rs = refl

strongest_role-max_from :
    (r : Role) (rs : List Role) → strongest_role (r ∷ rs) ≡ some (max_from r rs)
unfolding strongest_role max_from
strongest_role-max_from author [] = refl
strongest_role-max_from reviewer [] = refl
strongest_role-max_from read_only [] = refl
strongest_role-max_from r (s ∷ rs) =
    strongest_step r s rs ∙ strongest_role-max_from (max_from r (s ∷ [])) rs

least_privileged-can_push_updates :
    (a b : Role)
    → can_push_updates (least_privileged a b) ≡ can_push_updates a && can_push_updates b
unfolding can_push_updates least_privileged
least_privileged-can_push_updates author author = refl
least_privileged-can_push_updates author reviewer = refl
least_privileged-can_push_updates author read_only = refl
least_privileged-can_push_updates reviewer author = refl
least_privileged-can_push_updates reviewer reviewer = refl
least_privileged-can_push_updates reviewer read_only = refl
least_privileged-can_push_updates read_only author = refl
least_privileged-can_push_updates read_only reviewer = refl
least_privileged-can_push_updates read_only read_only = refl

-- The strongest role of an identity, found by asking for each role in turn, is the one of the
-- greatest rank. A grant clamped with a role ranks no higher than either, and may push updates
-- exactly when both may.
pub roles_clamped :
    (roles : List Role) (a b : Role)
    → (strongest_role roles ≡ max_role roles)
      × (rank (least_privileged a b) ≤ rank a)
      × (rank (least_privileged a b) ≤ rank b)
      × (can_push_updates (least_privileged a b) ≡ can_push_updates a && can_push_updates b)
unfolding max_role least_privileged strongest_role
roles_clamped [] a b = (refl, ground arith, ground arith, least_privileged-can_push_updates a b)
roles_clamped (r ∷ rs) a b = (
  strongest_role-max_from r rs,
  ground arith,
  ground arith,
  least_privileged-can_push_updates a b,
)

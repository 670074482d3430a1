-- ===== src/Sync/Roles.antt =====
-- services/sync/src/auth.rs and crates/nisaba-auth/src/lib.rs: roles, and what they may do.
pub mod Privilege
use nisaba.Prelude.{
  ℕ, leb, if◌then◌else◌, Bool, true, false, ◌||◌, Option, none, some, List, [], ◌∷◌, Text,
}
use nisaba.Core.RedlineStyle.{scalars}
use nisaba.Core.Review.Tiers.{same_text}

pub data Role : Type 0 where
  author reviewer read_only : Role

-- `Role::parse`
unfoldable pub parse : Text → Option Role
parse s =
    if same_text s (scalars "author")
    then some author
    else if same_text s (scalars "reviewer")
    then some reviewer
    else if same_text s (scalars "read-only")
        || (same_text s (scalars "readonly") || same_text s (scalars "read_only"))
    then some read_only
    else none

-- `Display`
abbrev pub role_name : Role → Text
role_name author = scalars "author"
role_name reviewer = scalars "reviewer"
role_name read_only = scalars "read-only"

-- The flags of the bit set.
pub record CapabilitySet : Type 0 where
  pub receive_state : Bool
  pub push_updates : Bool
  pub presence_state : Bool

unfoldable pub capabilities : Role → CapabilitySet
capabilities author = record { receive_state = true; push_updates = true; presence_state = true }
capabilities reviewer = record { receive_state = true; push_updates = true; presence_state = true }
capabilities read_only = record {
  receive_state = true;
  push_updates = false;
  presence_state = true;
}

unfoldable pub can_push_updates : Role → Bool
unfolding capabilities
can_push_updates role = (capabilities role).push_updates

unfoldable pub rank : Role → ℕ
rank author = 2
rank reviewer = 1
rank read_only = 0

unfoldable pub least_privileged : Role → Role → Role
unfolding rank
least_privileged a b = if leb (rank a) (rank b) then a else b

-- The last of the greatest, as `max_by_key` finds it.
unfoldable pub max_from : Role → List Role → Role
unfolding rank
max_from best [] = best
max_from best (r ∷ rs) = max_from (if leb (rank best) (rank r) then r else best) rs

-- The set of roles is a list of them.
unfoldable pub max_role : List Role → Option Role
unfolding max_from
max_role [] = none
max_role (r ∷ rs) = some (max_from r rs)

abbrev pub same_role : Role → Role → Bool
same_role author author = true
same_role reviewer reviewer = true
same_role read_only read_only = true
same_role a b = false

abbrev pub holds : Role → List Role → Bool
holds role [] = false
holds role (r ∷ rs) = same_role role r || holds role rs

-- `Identity::strongest_role`
unfoldable pub strongest_role : List Role → Option Role
strongest_role roles =
    if holds author roles
    then some author
    else if holds reviewer roles
    then some reviewer
    else if holds read_only roles
    then some read_only
    else none

-- `StaticAccessResolver`, with its grants as a list of the latest first.
pub record StaticAccessResolver : Type 0 where
  pub grants : List ((Text × Text) × Role)
  pub allowed_all : Option Role

abbrev pub grant : Text → Text → Role → StaticAccessResolver → StaticAccessResolver
grant doc token role r = record r { grants = ((doc, token), role) ∷ r.grants }

unfoldable pub granted : Text → Text → List ((Text × Text) × Role) → Option Role
granted doc token [] = none
granted doc token (((d, t), role) ∷ rest) =
    let later = granted doc token rest in
    if same_text doc d then (if same_text token t then some role else later) else later

abbrev pub for_any_token : Text → Option Role → Option Role
for_any_token [] o = none
for_any_token (c ∷ cs) o = o

abbrev pub or_allowed : Option Role → Option Role → Option Role
or_allowed (some role) o = some role
or_allowed none o = o

-- `none` is the denial.
unfoldable pub resolve_access : StaticAccessResolver → Text → Text → Option Role
unfolding granted
resolve_access r doc token =
    or_allowed (granted doc token r.grants) (for_any_token token r.allowed_all)

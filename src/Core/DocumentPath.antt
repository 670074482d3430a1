-- ===== src/Core/DocumentPath.antt =====
-- crates/nisaba-core/src/project.rs: the paths of a project's documents.
pub mod Normal
use nisaba.Prelude.{
  ◌||◌, not, ◌==◌, if◌then◌else◌, Bool, true, false, Option, none, some, List, [], ◌∷◌, ◌++◌, map,
  Text, any, keep, ℕ,
}

abbrev pub slash : ℕ
slash = 47

abbrev pub backslash : ℕ
backslash = 92

abbrev pub dot : ℕ
dot = 46

abbrev pub to_slash : ℕ → ℕ
to_slash c = if c == backslash then slash else c

-- `replace('\\', "/")`
abbrev pub slashed : Text → Text
slashed path = map to_slash path

abbrev pub push_first : ℕ → List Text → List Text
push_first c [] = (c ∷ []) ∷ []
push_first c (s ∷ ss) = (c ∷ s) ∷ ss

-- `split('/')`
unfoldable pub split : Text → List Text
split [] = [] ∷ []
split (c ∷ cs) = let rest = split cs in if c == slash then [] ∷ rest else push_first c rest

abbrev pub is_nonempty : Text → Bool
is_nonempty [] = false
is_nonempty (c ∷ cs) = true

-- `.` and `..`
abbrev pub is_traversal : Text → Bool
is_traversal [] = false
is_traversal (a ∷ []) = a == dot
is_traversal (a ∷ b ∷ []) = if a == dot then b == dot else false
is_traversal (a ∷ b ∷ c ∷ cs) = false

unfoldable pub segments : Text → List Text
unfolding split
segments path = keep is_nonempty (split (slashed path))

-- `join("/")`
unfoldable pub join : List Text → Text
join [] = []
join (s ∷ []) = s
join (s ∷ t ∷ ss) = s ++ slash ∷ join (t ∷ ss)

abbrev pub is_none_of : List Text → Bool
is_none_of [] = true
is_none_of (s ∷ ss) = false

abbrev pub joined : List Text → Option Text
joined ss = if is_none_of ss || any is_traversal ss then none else some (join ss)

-- The normalized path, or `none` for `InvalidDocumentPath`.
unfoldable pub normalized : Text → Option Text
unfolding segments join
normalized path = joined (segments path)

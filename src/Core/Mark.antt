-- ===== src/Core/Mark.antt =====
-- crates/nisaba-core/src/mark.rs: one mark, a range of characters with a kind, an author and a time.
use nisaba.Prelude.{ℕ, compare, Ordering, Bool, true, false, Option, some, Text}
use nisaba.OrdMap.Order.{compare_text, then_with}
use nisaba.Core.Range.{TextRange}

pub data MarkKind : Type 0 where
  insertion deletion comment secret : MarkKind

unfoldable pub is_change : MarkKind → Bool
is_change insertion = true
is_change deletion = true
is_change comment = false
is_change secret = false

-- The derived `==` of the kinds.
abbrev pub same_kind : MarkKind → MarkKind → Bool
same_kind insertion insertion = true
same_kind deletion deletion = true
same_kind comment comment = true
same_kind secret secret = true
same_kind _ _ = false

-- `MarkId(u64)`, `AuthorId(Arc<str>)` and `Timestamp(u64)` are opaque and ordered.
abbrev pub MarkId : Type 0
MarkId = ℕ

abbrev pub AuthorId : Type 0
AuthorId = Text

abbrev pub Timestamp : Type 0
Timestamp = ℕ

pub record Mark : Type 0 where
  pub id : MarkId
  pub range : TextRange
  pub kind : MarkKind
  pub author : AuthorId
  pub timestamp : Timestamp
  pub note : Option Text

unfoldable pub new : MarkId → TextRange → MarkKind → AuthorId → Timestamp → Option Text → Mark
new id range kind author timestamp note = record {
  id = id;
  range = range;
  kind = kind;
  author = author;
  timestamp = timestamp;
  note = note;
}

unfoldable pub with_note : Mark → Text → Mark
with_note m n = record m { note = some n }

-- Timestamps first, then authors, then ids.
unfoldable pub occurrence_order : Mark → Mark → Ordering
occurrence_order a b =
    then_with (then_with (compare a.timestamp b.timestamp) (compare_text a.author b.author))
      (compare a.id b.id)

-- ===== src/Core/Review/Threads.antt =====
-- crates/nisaba-core/src/review.rs: the threads of comments, anchored at marks.
pub mod Refresh
use nisaba.Prelude.{
  ℕ, ◌||◌, not, if◌then◌else◌, Bool, Option, none, some, List, [], ◌∷◌, ◌++◌, Text, true, false,
}
use nisaba.OrdMap.{OrdMap}
use nisaba.Core.Range.{is_empty}
use nisaba.Core.Mark.{Mark, MarkId, comment, deletion, same_kind}
use nisaba.Core.MarkSet
use nisaba.Core.MarkSet.{MarkSet, of_kind}
use nisaba.Core.Deleted.{is_range_fully_deleted}

abbrev pub CommentThreadId : Type 0
CommentThreadId = ℕ

pub data CommentState : Type 0 where
  open_state resolved_state orphaned_state : CommentState

pub record CommentMessage : Type 0 where
  pub author : Text
  pub body : Text
  pub timestamp : ℕ

pub record CommentThread : Type 0 where
  pub id : CommentThreadId
  pub anchor : MarkId
  pub messages : List CommentMessage
  pub state : CommentState

abbrev pub new : CommentThreadId → MarkId → CommentThread
new id anchor = record { id = id; anchor = anchor; messages = []; state = open_state }

unfoldable pub add_message : CommentMessage → CommentThread → CommentThread
add_message message t = record t { messages = t.messages ++ message ∷ [] }

unfoldable pub resolve_thread : CommentThread → CommentThread
resolve_thread t = record t { state = resolved_state }

unfoldable pub reopen : CommentThread → CommentThread
reopen t = record t { state = open_state }

-- The anchor points at no surviving content.
unfoldable pub is_lost : List Mark → Option Mark → Bool
unfolding is_empty is_range_fully_deleted
is_lost deletes none = true
is_lost deletes (some anchor) =
    not (same_kind anchor.kind comment)
    || (is_empty anchor.range || is_range_fully_deleted anchor.range deletes)

abbrev pub is_orphaned : CommentState → Bool
is_orphaned orphaned_state = true
is_orphaned _ = false

abbrev pub refreshed : Bool → CommentState → CommentState
refreshed lost state =
    if lost then orphaned_state else if is_orphaned state then open_state else state

-- The body of the loop over the threads.
unfoldable pub refresh_thread : List Mark → MarkSet → CommentThread → CommentThread
unfolding MarkSet.get is_lost
refresh_thread deletes marks t = record t {
  state = refreshed (is_lost deletes (MarkSet.get t.anchor marks)) t.state;
}

unfoldable pub refresh_threads :
    List Mark
    → MarkSet
    → OrdMap CommentThreadId CommentThread
    → OrdMap CommentThreadId CommentThread
unfolding refresh_thread
refresh_threads deletes marks [] = []
refresh_threads deletes marks ((id, t) ∷ threads) =
    (id, refresh_thread deletes marks t) ∷ refresh_threads deletes marks threads

unfoldable pub refresh_comment_threads :
    MarkSet → OrdMap CommentThreadId CommentThread → OrdMap CommentThreadId CommentThread
unfolding refresh_threads of_kind
refresh_comment_threads marks threads = refresh_threads (of_kind deletion marks) marks threads

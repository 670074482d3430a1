-- ===== src/Core/Review/Threads/Refresh.antt =====
-- What refreshing the threads does to each of them.
use nisaba.Prelude.{
  ◌≡◌, ◌↔◌, refl, ap, ◌∙◌, Option, none, some, [], ◌∷◌, true, arith, List, false, Bool,
}
use nisaba.OrdMap
use nisaba.OrdMap.{OrdMap}
use nisaba.OrdMap.Order.{nat_ord}
use nisaba.Core.Mark.{Mark, deletion}
use nisaba.Core.MarkSet
use nisaba.Core.MarkSet.{MarkSet, of_kind}
use nisaba.Core.Review.Threads.{
  CommentThreadId, CommentThread, CommentState, resolved_state, orphaned_state, refresh_thread,
  refresh_threads, refresh_comment_threads, is_lost, refreshed,
}

abbrev pub map_thread :
    (CommentThread → CommentThread) → Option CommentThread → Option CommentThread
map_thread f none = none
map_thread f (some t) = some (f t)

get-refresh_threads :
    (ds : List Mark) (marks : MarkSet) (id : CommentThreadId)
    (ts : OrdMap CommentThreadId CommentThread)
    → OrdMap.get id (refresh_threads ds marks ts)
      ≡ map_thread (refresh_thread ds marks) (OrdMap.get id ts)
unfolding OrdMap.get refresh_threads
get-refresh_threads ds marks id [] = refl
get-refresh_threads ds marks id ((k, t) ∷ ts) = ground (arith, get-refresh_threads ds marks id ts)

refreshed_twice :
    (lost : Bool) (s : CommentState) → refreshed lost (refreshed lost s) ≡ refreshed lost s
refreshed_twice lost s = ground arith

refresh_thread_twice :
    (ds : List Mark) (marks : MarkSet) (t : CommentThread)
    → refresh_thread ds marks (refresh_thread ds marks t) ≡ refresh_thread ds marks t
unfolding refresh_thread
refresh_thread_twice ds marks t =
    ap (λ s. record t { state = s })
      (refreshed_twice (is_lost ds (MarkSet.get t.anchor marks)) t.state)

refresh_threads_twice :
    (ds : List Mark) (marks : MarkSet) (ts : OrdMap CommentThreadId CommentThread)
    → refresh_threads ds marks (refresh_threads ds marks ts) ≡ refresh_threads ds marks ts
unfolding refresh_threads
refresh_threads_twice ds marks [] = refl
refresh_threads_twice ds marks ((k, t) ∷ ts) =
    rw (refresh_thread_twice ds marks t, refresh_threads_twice ds marks ts) refl

-- The ids of the threads, in their order.
abbrev pub ids_of : OrdMap CommentThreadId CommentThread → List CommentThreadId
ids_of [] = []
ids_of ((id, t) ∷ ts) = id ∷ ids_of ts

ids_of-refresh_threads :
    (ds : List Mark) (marks : MarkSet) (ts : OrdMap CommentThreadId CommentThread)
    → ids_of (refresh_threads ds marks ts) ≡ ids_of ts
unfolding refresh_threads
ids_of-refresh_threads ds marks [] = refl
ids_of-refresh_threads ds marks ((k, t) ∷ ts) =
    ap (λ ids. k ∷ ids) (ids_of-refresh_threads ds marks ts)

-- A refresh keeps the ids of the threads, so that no thread disappears or is invented, a thread
-- that is found is found with its id, anchor and messages, its state
-- is orphaned exactly when its anchor is lost and resolved exactly when it was and its anchor is not
-- lost, and a second refresh changes nothing.
pub refresh_exact :
    (marks : MarkSet) (id : CommentThreadId) (ts : OrdMap CommentThreadId CommentThread)
    (t : CommentThread)
    → OrdMap.get id ts ≡ some t
    → (ids_of (refresh_comment_threads marks ts) ≡ ids_of ts)
      × (t' : CommentThread) × (OrdMap.get id (refresh_comment_threads marks ts) ≡ some t')
      × (t'.id ≡ t.id)
      × (t'.anchor ≡ t.anchor)
      × (t'.messages ≡ t.messages)
      × ((t'.state ≡ orphaned_state)
          ↔ (is_lost (of_kind deletion marks) (MarkSet.get t.anchor marks) ≡ true))
      × ((t'.state ≡ resolved_state) ↔ (
          (t.state ≡ resolved_state)
          × (is_lost (of_kind deletion marks) (MarkSet.get t.anchor marks) ≡ false)))
      × (refresh_comment_threads marks (refresh_comment_threads marks ts)
          ≡ refresh_comment_threads marks ts)
unfolding refresh_comment_threads refresh_thread
refresh_exact marks id ts t h = (
  ids_of-refresh_threads (of_kind deletion marks) marks ts,
  refresh_thread (of_kind deletion marks) marks t,
  get-refresh_threads (of_kind deletion marks) marks id ts ∙ ap (map_thread _) h,
  refl,
  refl,
  refl,
  orphaned_when _ t.state,
  resolved_when _ t.state,
  refresh_threads_twice (of_kind deletion marks) marks ts,
)
  where
    orphaned_when :
        (lost : Bool) (s : CommentState) → (refreshed lost s ≡ orphaned_state) ↔ (lost ≡ true)
    orphaned_when lost s = ground arith

    resolved_when :
        (lost : Bool) (s : CommentState)
        → (refreshed lost s ≡ resolved_state) ↔ ((s ≡ resolved_state) × (lost ≡ false))
    resolved_when lost s = ground arith

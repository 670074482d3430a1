-- ===== src/Core/Milestone/Compared.antt =====
-- A comparison of two captured projects holds, for each path, both projected texts.
use nisaba.Prelude.{◌≡◌, refl, sym, subst, ap, ◌∙◌, Option, none, some, List, [], ◌∷◌, Text}
use nisaba.OrdMap
use nisaba.OrdMap.{OrdMap, values}
use nisaba.OrdMap.Order.{text_ord}
use nisaba.OrdMap.Laws.{IsSorted}
use nisaba.OrdMap.Collect.{
  collect, with_values, last_value, or_else, or_else-none, map_option, get-collect,
  collect-IsSorted, last_value-with_values,
}
use nisaba.Core.Projection.{View}
use nisaba.Core.Project.{DocumentPath, Project, ProjectDocument, documents_of}
use nisaba.Core.Project.Laws.{IsKeyed, IsValid}
use nisaba.Core.Review.Tiers.{SnapshotChange, diff_chars}
use nisaba.Core.Review.Tiers.Sides.{old_side, new_side}
use nisaba.Core.Review.Tiers.Regions.{diff_chars_sides}
use nisaba.Core.Milestone.{
  Milestone, ProjectedSnapshot, project_snapshot, snapshot_entries, capture, text_or_empty,
  all_paths, compare_path, compare_milestones,
}

-- The entries of a map collected from an empty one.
get-collected {ℓ κ} :
    {K : Type ℓ} {V : Type κ} ⦃o : OrdMap.Order.Ord K⦄ (k : K) (es : List (K × V))
    → OrdMap.get k (collect es []) ≡ last_value k es
unfolding OrdMap.get
get-collected k es = get-collect k es [] ∙ or_else-none (last_value k es)

get-collect_values {ℓ κ μ} :
    {K : Type ℓ} {V : Type κ} {W : Type μ} ⦃o : OrdMap.Order.Ord K⦄ (f : K → V → W) (k : K)
    (m : OrdMap K V)
    → IsSorted m
    → OrdMap.get k (collect (with_values f m) []) ≡ map_option (f k) (OrdMap.get k m)
get-collect_values f k m h = get-collected k (with_values f m) ∙ last_value-with_values f k m h

snapshot_entries-values :
    (view : View) (ds : OrdMap DocumentPath ProjectDocument)
    → IsKeyed ds
    → snapshot_entries view (values ds) ≡ with_values (λ k d. project_snapshot view d) ds
snapshot_entries-values view [] h = refl
snapshot_entries-values view ((k, d) ∷ ds) (e, h) =
    ap (λ x. (x, project_snapshot view d) ∷ snapshot_entries view (values ds)) (sym e)
    ∙ ap (λ rest. (k, project_snapshot view d) ∷ rest) (snapshot_entries-values view ds h)

-- What a project's document at a path projects to.
abbrev pub projected : View → DocumentPath → Project → Option ProjectedSnapshot
projected view path p = map_option (project_snapshot view) (OrdMap.get path p.documents)

get-capture :
    (p : Project) (name : Text) (view : View) (path : DocumentPath)
    → IsValid p
    → OrdMap.get path (capture p name view).snapshots ≡ projected view path p
unfolding capture
get-capture p name view path v =
    ap (λ es. OrdMap.get path (collect es [])) (snapshot_entries-values view p.documents v.keyed)
    ∙ get-collect_values (λ k d. project_snapshot view d) path p.documents v.sorted

capture-IsSorted :
    (p : Project) (name : Text) (view : View) → IsSorted (capture p name view).snapshots
unfolding capture
capture-IsSorted p name view = collect-IsSorted (snapshot_entries view (documents_of p)) [] tt

-- The changes at a path hold the old and the new text; there are none where neither project has a
-- document.
abbrev pub Compares :
    Option ProjectedSnapshot → Option ProjectedSnapshot → Option (List SnapshotChange) → Type 0
Compares none none none = Unit
Compares (some s) b none = ⊥
Compares none (some s) none = ⊥
Compares none none (some changes) = ⊥
Compares (some s) b (some changes) =
    (old_side changes ≡ s.text) × (new_side changes ≡ text_or_empty b)
Compares none (some s) (some changes) = (old_side changes ≡ []) × (new_side changes ≡ s.text)

Compares-congruence :
    {a b c d : Option ProjectedSnapshot} (o : Option (List SnapshotChange))
    → a ≡ c
    → b ≡ d
    → Compares a b o
    → Compares c d o
Compares-congruence {a} {b} {c} {d} o e f h =
    subst (λ x. Compares c x o) f (subst (λ x. Compares x b o) e h)

abbrev listed : Option ProjectedSnapshot → Option (Unit {0})
listed o = map_option (λ s. tt) o

get-all_paths :
    (a b : Milestone) (path : DocumentPath)
    → IsSorted a.snapshots
    → IsSorted b.snapshots
    → OrdMap.get path (all_paths a b)
      ≡ or_else (listed (OrdMap.get path b.snapshots)) (listed (OrdMap.get path a.snapshots))
unfolding all_paths
get-all_paths a b path ha hb =
    get-collect path (with_values (λ k s. tt) b.snapshots) _
    ∙ ap (λ o. or_else o (OrdMap.get path (collect (with_values (λ k s. tt) a.snapshots) [])))
        (last_value-with_values (λ k s. tt) path b.snapshots hb)
    ∙ ap (or_else _) (get-collect_values (λ k s. tt) path a.snapshots ha)

all_paths-IsSorted : (a b : Milestone) → IsSorted (all_paths a b)
unfolding all_paths
all_paths-IsSorted a b =
    collect-IsSorted (with_values (λ k s. tt) b.snapshots) _
      (collect-IsSorted (with_values (λ k s. tt) a.snapshots) [] tt)

compared_sides :
    (a b : Option ProjectedSnapshot)
    → Compares a b (
        map_option
          (λ u. diff_chars (text_or_empty a) (text_or_empty b))
          (or_else (listed b) (listed a)))
compared_sides none none = tt
compared_sides (some s) none = diff_chars_sides s.text []
compared_sides none (some s) = diff_chars_sides [] s.text
compared_sides (some s) (some t) = diff_chars_sides s.text t.text

get-compare_milestones :
    (a b : Milestone) (path : DocumentPath)
    → IsSorted a.snapshots
    → IsSorted b.snapshots
    → Compares
        (OrdMap.get path a.snapshots)
        (OrdMap.get path b.snapshots)
        (OrdMap.get path (compare_milestones a b).documents)
unfolding compare_milestones compare_path
get-compare_milestones a b path ha hb =
    subst (Compares _ _)
      (sym (
        get-collect_values (λ k u. compare_path a b k) path (all_paths a b) (all_paths-IsSorted a b)
        ∙ ap (map_option (λ u. compare_path a b path)) (get-all_paths a b path ha hb)))
      (compared_sides (OrdMap.get path a.snapshots) (OrdMap.get path b.snapshots))

-- Comparing the milestones of two projects whose paths ascend and whose documents are stored under
-- their own paths gives, at each path, nothing when neither has a document there, and otherwise
-- changes whose equal and deleted texts are the first's projected text and whose equal and inserted
-- texts are the second's, the empty text standing for a document that is not there.
pub compare_milestones-Compares :
    (p q : Project) (from to : Text) (v w : View) (path : DocumentPath)
    → IsValid p
    → IsValid q
    → Compares
        (projected v path p)
        (projected w path q)
        (OrdMap.get path (compare_milestones (capture p from v) (capture q to w)).documents)
compare_milestones-Compares p q from to v w path hp hq =
    Compares-congruence _ (get-capture p from v path hp) (get-capture q to w path hq) (
      get-compare_milestones (capture p from v) (capture q to w) path (capture-IsSorted p from v)
        (capture-IsSorted q to w))

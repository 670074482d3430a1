-- ===== src/Core/Milestone.antt =====
-- crates/nisaba-core/src/review.rs: milestones, immutable projections of a project, and their comparison.
pub mod Compared
use nisaba.Prelude.{Option, none, some, List, [], ◌∷◌, ◌++◌, Text}
use nisaba.OrdMap
use nisaba.OrdMap.{OrdMap, values}
use nisaba.OrdMap.Order.{text_ord}
use nisaba.OrdMap.Collect.{collect, with_values}
use nisaba.Core.Mark.{insertion, deletion}
use nisaba.Core.RedlineStyle.{RedlineStyle, wrap_change}
use nisaba.Core.Projection.{View}
use nisaba.Core.Document
use nisaba.Core.Document.{Document}
use nisaba.Core.Project.{DocumentPath, Project, ProjectDocument, documents_of}
use nisaba.Core.Review.Tiers.{SnapshotChange, deleted, inserted, equal, diff_chars}

pub record ProjectedSnapshot : Type 0 where
  pub path : DocumentPath
  pub view : View
  pub text : Text

pub record Milestone : Type 0 where
  pub name : Text
  pub view : View
  pub snapshots : OrdMap DocumentPath ProjectedSnapshot

abbrev pub project_snapshot : View → ProjectDocument → ProjectedSnapshot
project_snapshot view d = record {
  path = d.path;
  view = view;
  text = Document.project view d.document;
}

abbrev pub snapshot_entries : View → List ProjectDocument → List (DocumentPath × ProjectedSnapshot)
snapshot_entries view [] = []
snapshot_entries view (d ∷ ds) = (d.path, project_snapshot view d) ∷ snapshot_entries view ds

unfoldable pub capture : Project → Text → View → Milestone
unfolding Document.project collect
capture p name view = record {
  name = name;
  view = view;
  snapshots = collect (snapshot_entries view (documents_of p)) [];
}

unfoldable pub snapshot_at : DocumentPath → Milestone → Option ProjectedSnapshot
unfolding OrdMap.get
snapshot_at path m = OrdMap.get path m.snapshots

pub record MilestoneComparison : Type 0 where
  pub from : Text
  pub to : Text
  pub documents : OrdMap DocumentPath (List SnapshotChange)

-- `map_or("", |s| s.text)`
abbrev pub text_or_empty : Option ProjectedSnapshot → Text
text_or_empty none = []
text_or_empty (some s) = s.text

-- The set of the paths of both, as a map to nothing.
unfoldable pub all_paths : Milestone → Milestone → OrdMap DocumentPath (Unit {0})
unfolding collect
all_paths from to =
    collect (with_values (λ k s. tt) to.snapshots)
      (collect (with_values (λ k s. tt) from.snapshots) [])

unfoldable pub compare_path : Milestone → Milestone → DocumentPath → List SnapshotChange
unfolding OrdMap.get diff_chars
compare_path from to path =
    diff_chars (text_or_empty (OrdMap.get path from.snapshots))
      (text_or_empty (OrdMap.get path to.snapshots))

unfoldable pub compare_milestones : Milestone → Milestone → MilestoneComparison
unfolding collect all_paths compare_path
compare_milestones from to = record {
  from = from.name;
  to = to.name;
  documents = collect (with_values (λ path u. compare_path from to path) (all_paths from to)) [];
}

unfoldable pub redline_changes : RedlineStyle → List SnapshotChange → Text → Text
unfolding wrap_change
redline_changes style [] output = output
redline_changes style (deleted t ∷ cs) output =
    redline_changes style cs (wrap_change output t deletion style)
redline_changes style (inserted t ∷ cs) output =
    redline_changes style cs (wrap_change output t insertion style)
redline_changes style (equal t ∷ cs) output = redline_changes style cs (output ++ t)

-- `MilestoneComparison::redline`
unfoldable pub redline_comparison : RedlineStyle → MilestoneComparison → OrdMap DocumentPath Text
unfolding redline_changes collect
redline_comparison style c =
    collect (with_values (λ path changes. redline_changes style changes []) c.documents) []

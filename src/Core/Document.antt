-- ===== src/Core/Document.antt =====
-- crates/nisaba-core/src/document.rs: a document of text, marks and fields.
use nisaba.Prelude.{ℕ, Bool, Option, List, [], Text}
use nisaba.OrdMap
use nisaba.OrdMap.{OrdMap}
use nisaba.OrdMap.Order.{text_ord}
use nisaba.Core.Mark.{Mark, MarkId}
use nisaba.Core.MarkSet
use nisaba.Core.MarkSet.{MarkSet}
use nisaba.Core.RedlineStyle.{RedlineStyle, new_default}
use nisaba.Core.Projection
use nisaba.Core.Projection.{View}
use nisaba.Core.Resolution
use nisaba.Core.Resolution.{Resolution, ResolutionOutcome, Result, ok, err, accepted, rejected}
use nisaba.Core.Validation
use nisaba.Core.Validation.{ValidationIssue}

-- An `i64` is its sign and magnitude, an `f64` its bits.
pub data FieldValue : Type 0 where
  text_value enum_value : Text → FieldValue
  integer_value : Bool → ℕ → FieldValue
  float_value : ℕ → FieldValue
  bool_value : Bool → FieldValue

abbrev pub Data : Type 0
Data = OrdMap Text FieldValue

unfoldable pub set_field : Text → FieldValue → Data → Data
unfolding OrdMap.insert
set_field key value d = OrdMap.insert key value d

unfoldable pub get_field : Text → Data → Option FieldValue
unfolding OrdMap.get
get_field key d = OrdMap.get key d

unfoldable pub remove_field : Text → Data → Data × Option FieldValue
unfolding OrdMap.remove OrdMap.get
remove_field key d = (OrdMap.remove key d, OrdMap.get key d)

pub record Document : Type 0 where
  pub text : Text
  pub marks : MarkSet
  pub data_fields : Data

abbrev pub from_text : Text → Document
from_text t = record { text = t; marks = MarkSet.empty; data_fields = [] }

abbrev pub from_layers : Text → MarkSet → Data → Document
from_layers t marks d = record { text = t; marks = marks; data_fields = d }

-- A new text clears the marks.
abbrev pub set_text : Text → Document → Document
set_text t doc = record doc { text = t; marks = MarkSet.empty }

unfoldable pub add_mark : Mark → Document → Document
unfolding MarkSet.insert
add_mark m doc = record doc { marks = MarkSet.insert m doc.marks }

unfoldable pub remove_mark : MarkId → Document → Document × Option Mark
unfolding MarkSet.remove MarkSet.get
remove_mark id doc = (record doc { marks = MarkSet.remove id doc.marks }, MarkSet.get id doc.marks)

unfoldable pub project_with : View → RedlineStyle → Document → Text
unfolding Projection.project_with
project_with view style doc = Projection.project_with doc.text doc.marks view style

unfoldable pub project : View → Document → Text
unfolding project_with
project view doc = project_with view new_default doc

unfoldable pub validate : Document → List ValidationIssue
unfolding Validation.validate
validate doc = Validation.validate doc.text doc.marks

unfoldable pub is_valid : Document → Bool
unfolding Validation.is_valid
is_valid doc = Validation.is_valid doc.text doc.marks

-- The document after a resolution, with the report; an error leaves it as it was.
abbrev pub resolved : Document → Result ResolutionOutcome → Document × Result ResolutionOutcome
resolved doc (ok outcome) = (record doc { text = outcome.text; marks = outcome.marks }, ok outcome)
resolved doc (err e) = (doc, err e)

unfoldable pub resolve : MarkId → Resolution → Document → Document × Result ResolutionOutcome
unfolding Resolution.resolve
resolve id resolution doc = resolved doc (Resolution.resolve doc.text doc.marks id resolution)

unfoldable pub accept : MarkId → Document → Document × Result ResolutionOutcome
unfolding resolve
accept id doc = resolve id accepted doc

unfoldable pub reject : MarkId → Document → Document × Result ResolutionOutcome
unfolding resolve
reject id doc = resolve id rejected doc

-- ===== src/Core/Project.antt =====
-- crates/nisaba-core/src/project.rs: a project of documents under normalized paths.
pub mod Laws
use nisaba.Prelude.{ℕ, Bool, true, false, Option, none, some, List, [], ◌∷◌, Text, length}
use nisaba.OrdMap
use nisaba.OrdMap.{OrdMap, values}
use nisaba.OrdMap.Order.{text_ord}
use nisaba.Core.Document.{Document}

-- A normalized path, as `DocumentPath.normalized` gives it.
abbrev pub DocumentPath : Type 0
DocumentPath = Text

abbrev pub ProjectId : Type 0
ProjectId = Text

pub record ProjectDocument : Type 0 where
  pub path : DocumentPath
  pub document : Document

pub record Project : Type 0 where
  pub id : ProjectId
  pub documents : OrdMap DocumentPath ProjectDocument

abbrev pub new : ProjectId → Project
new id = record { id = id; documents = [] }

unfoldable pub insert_document : DocumentPath → Document → Project → Project
unfolding OrdMap.insert
insert_document path document p = record p {
  documents = OrdMap.insert path (record { path = path; document = document }) p.documents;
}

abbrev pub document_of : Option ProjectDocument → Option Document
document_of none = none
document_of (some d) = some d.document

unfoldable pub find_document : DocumentPath → Project → Option Document
unfolding OrdMap.get
find_document path p = document_of (OrdMap.get path p.documents)

-- `document_mut`: the change that the caller makes to the document.
abbrev pub changed :
    DocumentPath
    → (Document → Document)
    → Option ProjectDocument
    → OrdMap DocumentPath ProjectDocument
    → OrdMap DocumentPath ProjectDocument
changed path f none ds = ds
changed path f (some d) ds = OrdMap.insert path (record d { document = f d.document }) ds

unfoldable pub document_mut : DocumentPath → (Document → Document) → Project → Project
unfolding OrdMap.get OrdMap.insert
document_mut path f p = record p {
  documents = changed path f (OrdMap.get path p.documents) p.documents;
}

unfoldable pub remove_document : DocumentPath → Project → Project × Option ProjectDocument
unfolding OrdMap.get OrdMap.remove
remove_document path p =
    (record p { documents = OrdMap.remove path p.documents }, OrdMap.get path p.documents)

abbrev pub documents_of : Project → List ProjectDocument
documents_of p = values p.documents

abbrev pub document_count : Project → ℕ
document_count p = length p.documents

abbrev pub is_empty : Project → Bool
is_empty p = elim p.documents [ [] ↦ true | ◌∷◌ d ds ↦ false ]

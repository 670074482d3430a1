-- ===== src/Core/Project/Laws.antt =====
-- The invariant of a project: its paths ascend, and each document is stored under its own path.
use nisaba.Prelude.{
  ◌≡◌, ◌≢◌, refl, sym, ap, ◌∙◌, subst, if◌then◌else◌, Bool, true, false, Bool-cases, inl, inr,
  Ordering, Option, none, some, List, [], ◌∷◌, arith,
}
use mathlib.Core.Option
use mathlib.Core.Path.{fun_ext}
use Prim.Native.Nat.Ordering.{eq}
use nisaba.OrdMap
use nisaba.OrdMap.{OrdMap}
use nisaba.OrdMap.Order.{text_ord, text_same_key, text_cmp_self}
use nisaba.OrdMap.Laws.{
  IsSorted, insert-IsSorted, remove-IsSorted, get-insert_self, get-insert_ne, get-remove_self,
  get-remove_ne,
}
use nisaba.Core.Document.{Document}
use nisaba.Core.Project.{
  DocumentPath, Project, ProjectDocument, insert_document, document_mut, changed, remove_document,
  find_document, document_of,
}

abbrev pub IsKeyed : OrdMap DocumentPath ProjectDocument → Type 0
IsKeyed [] = Unit
IsKeyed ((k, d) ∷ ds) = (k ≡ d.path) × IsKeyed ds

pub record IsValid (p : Project) : Type 0 where
  pub sorted : IsSorted p.documents
  pub keyed : IsKeyed p.documents

insert-IsKeyed :
    (path : DocumentPath) (d : ProjectDocument) (ds : OrdMap DocumentPath ProjectDocument)
    → path ≡ d.path
    → IsKeyed ds
    → IsKeyed (OrdMap.insert path d ds)
unfolding OrdMap.insert
insert-IsKeyed path d [] e h = (e, tt)
insert-IsKeyed path d ((k, w) ∷ ds) e h =
    ground (arith, insert-IsKeyed path d ds e h.1, text_same_key path k)

remove-IsKeyed :
    (path : DocumentPath) (ds : OrdMap DocumentPath ProjectDocument)
    → IsKeyed ds
    → IsKeyed (OrdMap.remove path ds)
unfolding OrdMap.remove
remove-IsKeyed path [] h = tt
remove-IsKeyed path ((k, w) ∷ ds) h = ground (arith, remove-IsKeyed path ds h.1)

get-IsKeyed :
    (path : DocumentPath) (d : ProjectDocument) (ds : OrdMap DocumentPath ProjectDocument)
    → IsKeyed ds
    → OrdMap.get path ds ≡ some d
    → path ≡ d.path
unfolding OrdMap.get
get-IsKeyed path d [] h e = absurd (ground arith)
get-IsKeyed path d ((k, w) ∷ ds) h e =
    ground (arith, get-IsKeyed path d ds h.1, text_same_key path k)

changed-IsKeyed :
    (path : DocumentPath) (f : Document → Document) (o : Option ProjectDocument)
    (ds : OrdMap DocumentPath ProjectDocument)
    → IsKeyed ds
    → OrdMap.get path ds ≡ o
    → IsKeyed (changed path f o ds)
changed-IsKeyed path f none ds h e = h
changed-IsKeyed path f (some d) ds h e =
    insert-IsKeyed path (record d { document = f d.document }) ds (get-IsKeyed path d ds h e) h

changed-IsSorted :
    (path : DocumentPath) (f : Document → Document) (o : Option ProjectDocument)
    (ds : OrdMap DocumentPath ProjectDocument)
    → IsSorted ds
    → IsSorted (changed path f o ds)
changed-IsSorted path f none ds h = h
changed-IsSorted path f (some d) ds h = insert-IsSorted path _ ds h

-- An operation of a project, and what a sequence of them makes of it.
pub data ProjectOp : Type 0 where
  inserting : DocumentPath → Document → ProjectOp
  changing : DocumentPath → (Document → Document) → ProjectOp
  removing : DocumentPath → ProjectOp

abbrev pub apply : ProjectOp → Project → Project
apply (inserting path doc) p = insert_document path doc p
apply (changing path f) p = document_mut path f p
apply (removing path) p = (remove_document path p).0

abbrev pub run : List ProjectOp → Project → Project
run [] p = p
run (op ∷ ops) p = run ops (apply op p)

-- A project as a client sees it: the document at each path.
abbrev pub Contents : Type 0
Contents = DocumentPath → Option Document

abbrev pub contents : Project → Contents
contents p path = find_document path p

abbrev pub is_at : Ordering → Bool
is_at eq = true
is_at _ = false

abbrev pub updated : DocumentPath → Option Document → Contents → Contents
updated path o c q = if is_at (text_ord.cmp q path) then o else c q

abbrev pub apply_to : ProjectOp → Contents → Contents
apply_to (inserting path doc) c = updated path (some doc) c
apply_to (changing path f) c = updated path (Option.map f (c path)) c
apply_to (removing path) c = updated path none c

abbrev pub run_to : List ProjectOp → Contents → Contents
run_to [] c = c
run_to (op ∷ ops) c = run_to ops (apply_to op c)

is_at-same : (q path : DocumentPath) → is_at (text_ord.cmp q path) ≡ true → q ≡ path
is_at-same q path h = ground (arith, h, text_same_key q path)

is_at-ne : (q path : DocumentPath) → is_at (text_ord.cmp q path) ≡ false → q ≢ path
is_at-ne q path h e =
    absurd (ground (arith, h, subst (λ x. text_ord.cmp q x ≡ eq) e (text_cmp_self q)))

-- Contents that have the document at the path and are the former ones elsewhere are the updated ones.
is_updated :
    (path : DocumentPath) (o : Option Document) (c d : Contents)
    → d path ≡ o
    → ((q : DocumentPath) → q ≢ path → d q ≡ c q)
    → d ≡ updated path o c
is_updated path o c d h k = fun_ext (λ q. elim (Bool-cases (is_at (text_ord.cmp q path))) [
  | inl e ↦ rw e (subst (λ x. d x ≡ o) (sym (is_at-same q path e)) h)
  | inr e ↦ rw e (k q (is_at-ne q path e))
])

changed-contents :
    (path : DocumentPath) (f : Document → Document) (p : Project) (o : Option ProjectDocument)
    → OrdMap.get path p.documents ≡ o
    → contents (record p { documents = changed path f o p.documents })
      ≡ updated path (Option.map f (document_of o)) (contents p)
unfolding find_document
changed-contents path f p none h =
    is_updated path none (contents p) (contents p) (ap document_of h) (λ q n. refl)
changed-contents path f p (some d) h =
    is_updated path _ (contents p) _ (ap document_of (get-insert_self path _ p.documents))
      (λ q n. ap document_of (get-insert_ne path q _ p.documents n))

apply-contents :
    (op : ProjectOp) (p : Project) → IsValid p → contents (apply op p) ≡ apply_to op (contents p)
unfolding insert_document document_mut remove_document find_document
apply-contents (inserting path doc) p v =
    is_updated path (some doc) (contents p) _ (ap document_of (get-insert_self path _ p.documents))
      (λ q n. ap document_of (get-insert_ne path q _ p.documents n))
apply-contents (changing path f) p v = changed-contents path f p _ refl
apply-contents (removing path) p v =
    is_updated path none (contents p) _ (ap document_of (get-remove_self path p.documents v.sorted))
      (λ q n. ap document_of (get-remove_ne path q p.documents n))

apply-IsValid : (op : ProjectOp) (p : Project) → IsValid p → IsValid (apply op p)
unfolding insert_document document_mut remove_document
apply-IsValid (inserting path doc) p v = record {
  sorted = insert-IsSorted path _ p.documents v.sorted;
  keyed = insert-IsKeyed path _ p.documents refl v.keyed;
}
apply-IsValid (changing path f) p v = record {
  sorted = changed-IsSorted path f (OrdMap.get path p.documents) p.documents v.sorted;
  keyed = changed-IsKeyed path f _ p.documents v.keyed refl;
}
apply-IsValid (removing path) p v = record {
  sorted = remove-IsSorted path p.documents v.sorted;
  keyed = remove-IsKeyed path p.documents v.keyed;
}

-- A sequence of insertions, changes and removals of documents, run on a project whose paths ascend
-- and whose documents are stored under their own paths, gives such a project, and its documents are
-- those that the same sequence gives on a function from paths to documents: an insertion and a
-- removal replace what is at the path, a change is made where a document is, and nothing else moves.
pub run_refines :
    (ops : List ProjectOp) (p : Project)
    → IsValid p
    → IsValid (run ops p) × (contents (run ops p) ≡ run_to ops (contents p))
run_refines [] p v = (v, refl)
run_refines (op ∷ ops) p v =
    let (valid, same) = run_refines ops (apply op p) (apply-IsValid op p v) in
    (valid, same ∙ ap (run_to ops) (apply-contents op p v))

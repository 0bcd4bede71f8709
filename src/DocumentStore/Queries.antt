-- ===== src/DocumentStore/Queries.antt =====
-- What the queries return.
use Prim.Native.Nat.{min}
use mathlib.Core.List.{Perm}
use taboot.Prelude.{
  take-append-drop, append-nil, not, All, ◌&&◌, ℕ, Text, ◌-◌, ◌≡◌, refl, sym, ap, ◌∙◌, suc, Bool,
  Option, none, some, List, [], ◌∷◌, ◌++◌, length, take, drop, length-take, length-drop, filter,
  arith,
}
use taboot.Python.{ok}
use taboot.Schemas.{Document, SourceType, ExtractionState}
use taboot.DocumentStore.{
  Store, insert_by, order_by, oldest_first, source_matches, state_matches, newest_first, in_state,
  selected, query_pending, query_documents, count_documents, get_content, content_of,
  found_or_key_error,
}
use taboot.DocumentStore.Ordering.{order_by-oldest_first, order_by-newest_first}
use taboot.DocumentStore.Selected.{
  IsSelected, IsOldestFirst, IsNewestFirst, ordered-Selected, filters_pass-IsSelected,
  selected_complete, state_sound, state_complete, oldest_first-IsOldestFirst,
  newest_first-IsNewestFirst,
}

-- All rows, or as many of them as the limit.
abbrev pub IsLimited : Option ℕ → List Document → List Document → Type 0
IsLimited none ds left = left ≡ []
IsLimited (some n) ds left = length ds ≡ min n (length (ds ++ left))

-- `ds` are the oldest of the PENDING rows, as many as the limit admits: `left` are those beyond it, and
-- `others` the rows that are not PENDING.
pub record IsQueue (documents : List Document) (limit : Option ℕ) (ds : List Document)
    : Type 0 where
  pub left : List Document
  pub others : List Document
  pub all : Perm ((ds ++ left) ++ others) documents
  pub pending : All (λ d. d.extraction_state ≡ ExtractionState.pending) (ds ++ left)
  pub rest : All (λ d. d.extraction_state ≡ ExtractionState.pending → ⊥) others
  pub oldest : IsOldestFirst (ds ++ left)
  pub size : IsLimited limit ds left

-- A query for the pending documents changes nothing and returns PENDING rows, the oldest ingestion
-- first, as many as there are or as the limit admits; each PENDING row that it leaves out is not
-- older than any that it returns, and every other row that it leaves out is not PENDING.
pub query_pending-IsQueue :
    (limit : Option ℕ) (s : Store)
    → (ds : List Document) × (query_pending limit s ≡ (ok ds, s)) × IsQueue s.documents limit ds
unfolding query_pending
query_pending-IsQueue limit s = queue limit
  where
    pending : List Document
    pending = order_by oldest_first (filter (in_state ExtractionState.pending) s.documents)

    others : List Document
    others = filter (λ d. not (in_state ExtractionState.pending d)) s.documents

    selected_pending :
        Perm (pending ++ others) s.documents
        × All (λ d. d.extraction_state ≡ ExtractionState.pending) pending
        × All (λ d. d.extraction_state ≡ ExtractionState.pending → ⊥) others
    selected_pending =
        ordered-Selected (in_state ExtractionState.pending) _
          (state_sound (some ExtractionState.pending))
          (λ d h e. let k = state_complete (some ExtractionState.pending) d e in ground arith)
          oldest_first s.documents

    oldest : IsOldestFirst pending
    oldest = oldest_first-IsOldestFirst pending (order_by-oldest_first _)

    queue :
        (limit : Option ℕ)
        → (ds : List Document) × (query_pending limit s ≡ (ok ds, s)) × IsQueue s.documents limit ds
    queue none =
        let (all, in_it, out) = selected_pending in
        (
          pending,
          refl,
          record {
            left = [];
            others = others;
            all = rw (append-nil pending) all;
            pending = rw (append-nil pending) in_it;
            rest = out;
            oldest = rw (append-nil pending) oldest;
            size = refl;
          },
        )
    queue (some n) =
        let (all, in_it, out) = selected_pending in
        let whole = take-append-drop n pending in
        (
          take n pending,
          refl,
          record {
            left = drop n pending;
            others = others;
            all = rw whole all;
            pending = rw whole in_it;
            rest = out;
            oldest = rw whole oldest;
            size = rw whole (length-take n pending);
          },
        )

length-insert_by :
    (before : Document → Document → Bool) (d : Document) (ds : List Document)
    → length (insert_by before d ds) ≡ suc (length ds)
unfolding insert_by
length-insert_by before d [] = refl
length-insert_by before d (e ∷ es) = ground (arith, length-insert_by before d es)

length-order_by :
    (before : Document → Document → Bool) (ds : List Document)
    → length (order_by before ds) ≡ length ds
unfolding order_by
length-order_by before [] = refl
length-order_by before (d ∷ ds) =
    length-insert_by before d (order_by before ds) ∙ ap suc (length-order_by before ds)

-- `ds` is the page of a listing: of the rows that match the filters, the newest ingestion first, it
-- leaves out `front`, as many as the offset, and behind the limit `back`; `others` do not match.
pub record IsPage (documents : List Document) (source : Option SourceType)
    (state : Option ExtractionState) (limit offset total : ℕ) (ds : List Document) : Type 0 where
  pub front : List Document
  pub back : List Document
  pub others : List Document
  pub all : Perm ((front ++ (ds ++ back)) ++ others) documents
  pub matching : All (IsSelected source state) (front ++ (ds ++ back))
  pub rest : All (λ d. IsSelected source state d → ⊥) others
  pub newest : IsNewestFirst (front ++ (ds ++ back))
  pub counted : total ≡ length (front ++ (ds ++ back))
  pub skipped : length front ≡ min offset total
  pub size : length ds ≡ min limit (total - offset)

pub query_documents-IsPage :
    (limit offset : ℕ) (source : Option SourceType) (state : Option ExtractionState) (s : Store)
    → (ds : List Document) × (query_documents limit offset source state s ≡ (ok ds, s))
      × (total : ℕ) × (count_documents source state s ≡ (ok total, s))
      × IsPage s.documents source state limit offset total ds
unfolding query_documents count_documents
query_documents-IsPage limit offset source state s =
    let rows = selected source state s.documents in
    let ordered = order_by newest_first rows in
    let counted = length-order_by newest_first rows in
    let whole : take offset ordered
          ++ (take limit (drop offset ordered) ++ drop limit (drop offset ordered))
        ≡ ordered =
      rw (take-append-drop limit (drop offset ordered)) (take-append-drop offset ordered) in
    let (all, in_it, out) =
      ordered-Selected (λ d. source_matches source d && state_matches state d)
        (IsSelected source state) (filters_pass-IsSelected source state)
        (selected_complete source state) newest_first s.documents in
    (
      take limit (drop offset ordered),
      refl,
      length rows,
      refl,
      record {
        front = take offset ordered;
        back = drop limit (drop offset ordered);
        others = filter (λ d. not (source_matches source d && state_matches state d)) s.documents;
        all = rw whole all;
        matching = rw whole in_it;
        rest = out;
        newest = rw whole (newest_first-IsNewestFirst ordered (order_by-newest_first rows));
        counted = rw whole (sym counted);
        skipped = omega (arith, length-take offset ordered, counted);
        size =
            omega
              (arith, length-take limit (drop offset ordered), length-drop offset ordered, counted);
      },
    )

-- The queries change nothing.
pub query_pending-state : (limit : Option ℕ) (s : Store) → (query_pending limit s).1 ≡ s
unfolding query_pending
query_pending-state limit s = refl

pub get_content-state : (i : ℕ) (s : Store) → (get_content i s).1 ≡ s
unfolding get_content
get_content-state i s = go (content_of i s.contents)
  where
    go : (o : Option Text) → (found_or_key_error o s).1 ≡ s
    go none = refl
    go (some t) = refl

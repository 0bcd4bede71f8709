-- ===== src/DocumentStore/Selected.antt =====
-- What a query selects: its rows in order, beside the rows that it leaves out.
use mathlib.Core.List.{Perm}
use mathlib.Core.List.Perm
use taboot.Prelude.{
  Text, if◌then◌else◌, ◌≤◌, ◌≡◌, refl, sym, ap, ◌∙◌, Bool, true, false, not, ◌&&◌, Option, none,
  some, inl, inr, List, [], ◌∷◌, ◌++◌, filter, All, All-weaken, Bool-cases, text_eq, text_eq_sound,
  text_eq_refl, arith,
}
use taboot.Schemas.{Document, SourceType, ExtractionState, source_value, state_value}
use taboot.DocumentStore.{order_by, oldest_first, newest_first, source_matches, state_matches}
use taboot.DocumentStore.Ordering.{IsOrdered, order_by-perm, All-order_by}

-- The member with this value, where there is one.
abbrev source_of : Text → Option SourceType
source_of t =
    if text_eq t (source_value SourceType.web)
    then some SourceType.web
    else if text_eq t (source_value SourceType.github)
    then some SourceType.github
    else if text_eq t (source_value SourceType.reddit)
    then some SourceType.reddit
    else if text_eq t (source_value SourceType.youtube)
    then some SourceType.youtube
    else if text_eq t (source_value SourceType.gmail)
    then some SourceType.gmail
    else if text_eq t (source_value SourceType.elasticsearch)
    then some SourceType.elasticsearch
    else if text_eq t (source_value SourceType.docker_compose)
    then some SourceType.docker_compose
    else if text_eq t (source_value SourceType.swag)
    then some SourceType.swag
    else if text_eq t (source_value SourceType.tailscale)
    then some SourceType.tailscale
    else if text_eq t (source_value SourceType.unifi)
    then some SourceType.unifi
    else if text_eq t (source_value SourceType.ai_session)
    then some SourceType.ai_session
    else none

abbrev state_of : Text → Option ExtractionState
state_of t =
    if text_eq t (state_value ExtractionState.pending)
    then some ExtractionState.pending
    else if text_eq t (state_value ExtractionState.tier_a_done)
    then some ExtractionState.tier_a_done
    else if text_eq t (state_value ExtractionState.tier_b_done)
    then some ExtractionState.tier_b_done
    else if text_eq t (state_value ExtractionState.tier_c_done)
    then some ExtractionState.tier_c_done
    else if text_eq t (state_value ExtractionState.completed)
    then some ExtractionState.completed
    else if text_eq t (state_value ExtractionState.failed)
    then some ExtractionState.failed
    else none

source_of-value : (s : SourceType) → source_of (source_value s) ≡ some s
unfolding text_eq
source_of-value SourceType.web = refl
source_of-value SourceType.github = refl
source_of-value SourceType.reddit = refl
source_of-value SourceType.youtube = refl
source_of-value SourceType.gmail = refl
source_of-value SourceType.elasticsearch = refl
source_of-value SourceType.docker_compose = refl
source_of-value SourceType.swag = refl
source_of-value SourceType.tailscale = refl
source_of-value SourceType.unifi = refl
source_of-value SourceType.ai_session = refl

state_of-value : (s : ExtractionState) → state_of (state_value s) ≡ some s
unfolding text_eq
state_of-value ExtractionState.pending = refl
state_of-value ExtractionState.tier_a_done = refl
state_of-value ExtractionState.tier_b_done = refl
state_of-value ExtractionState.tier_c_done = refl
state_of-value ExtractionState.completed = refl
state_of-value ExtractionState.failed = refl

same_source : (s t : SourceType) → source_value s ≡ source_value t → s ≡ t
same_source s t h =
    let e : some s ≡ some t = sym (source_of-value s) ∙ ap source_of h ∙ source_of-value t in cc

same_state : (s t : ExtractionState) → state_value s ≡ state_value t → s ≡ t
same_state s t h =
    let e : some s ≡ some t = sym (state_of-value s) ∙ ap state_of h ∙ state_of-value t in cc

abbrev pub MatchesSource : Option SourceType → Document → Type 0
MatchesSource none d = Unit
MatchesSource (some source) d = d.source_type ≡ source

abbrev pub MatchesState : Option ExtractionState → Document → Type 0
MatchesState none d = Unit
MatchesState (some state) d = d.extraction_state ≡ state

source_sound :
    (source : Option SourceType) (d : Document)
    → source_matches source d ≡ true
    → MatchesSource source d
source_sound none d h = tt
source_sound (some s) d h = same_source d.source_type s (text_eq_sound _ _ h)

source_complete :
    (source : Option SourceType) (d : Document)
    → MatchesSource source d
    → source_matches source d ≡ true
source_complete none d h = refl
source_complete (some s) d h = rw h (text_eq_refl (source_value s))

pub state_sound :
    (state : Option ExtractionState) (d : Document)
    → state_matches state d ≡ true
    → MatchesState state d
state_sound none d h = tt
state_sound (some s) d h = same_state d.extraction_state s (text_eq_sound _ _ h)

pub state_complete :
    (state : Option ExtractionState) (d : Document)
    → MatchesState state d
    → state_matches state d ≡ true
state_complete none d h = refl
state_complete (some s) d h = rw h (text_eq_refl (state_value s))

abbrev pub IsSelected : Option SourceType → Option ExtractionState → Document → Type 0
IsSelected source state d = MatchesSource source d × MatchesState state d

pub filters_pass-IsSelected :
    (source : Option SourceType) (state : Option ExtractionState) (d : Document)
    → (source_matches source d && state_matches state d) ≡ true
    → IsSelected source state d
filters_pass-IsSelected source state d h =
    (source_sound source d (ground arith), state_sound state d (ground arith))

pub selected_complete :
    (source : Option SourceType) (state : Option ExtractionState) (d : Document)
    → (source_matches source d && state_matches state d) ≡ false
    → IsSelected source state d
    → ⊥
selected_complete source state d h (s, t) =
    let k : source_matches source d ≡ true = source_complete source d s in
    let l : state_matches state d ≡ true = state_complete state d t in ground arith

-- Each row was ingested no later than all that follow, and no earlier.
abbrev pub IsOldestFirst : List Document → Type 0
IsOldestFirst [] = Unit
IsOldestFirst (d ∷ ds) = All (λ e. d.ingested_at ≤ e.ingested_at) ds × IsOldestFirst ds

abbrev pub IsNewestFirst : List Document → Type 0
IsNewestFirst [] = Unit
IsNewestFirst (d ∷ ds) = All (λ e. e.ingested_at ≤ d.ingested_at) ds × IsNewestFirst ds

pub oldest_first-IsOldestFirst : (ds : List Document) → IsOrdered oldest_first ds → IsOldestFirst ds
oldest_first-IsOldestFirst [] h = tt
oldest_first-IsOldestFirst (d ∷ ds) (first, rest) =
    (All-weaken _ _ ds (λ e h. ground arith) first, oldest_first-IsOldestFirst ds rest)

pub newest_first-IsNewestFirst : (ds : List Document) → IsOrdered newest_first ds → IsNewestFirst ds
newest_first-IsNewestFirst [] h = tt
newest_first-IsNewestFirst (d ∷ ds) (first, rest) =
    (All-weaken _ _ ds (λ e h. ground arith) first, newest_first-IsNewestFirst ds rest)

perm_middle :
    {A : Type 0} (x : A) (front back : List A) → Perm (front ++ x ∷ back) (x ∷ (front ++ back))
perm_middle x [] back = Perm.refl (x ∷ back)
perm_middle x (y ∷ front) back =
    Perm.trans (Perm.cons y (perm_middle x front back)) (Perm.swap x y (front ++ back))

partition-perm :
    {A : Type 0} (p : A → Bool) (xs : List A) → Perm (filter p xs ++ filter (λ x. not (p x)) xs) xs
partition-perm p [] = Perm.refl []
partition-perm p (x ∷ xs) = elim (Bool-cases (p x)) [
  | inl in_it ↦ rw in_it (Perm.cons x (partition-perm p xs))
  | inr out ↦ rw out (
      Perm.trans (perm_middle x (filter p xs) (filter (λ x. not (p x)) xs))
        (Perm.cons x (partition-perm p xs)))
]

All-filter :
    {A : Type 0} (p : A → Bool) (P : A → Type 0) (xs : List A)
    → ((x : A) → p x ≡ true → P x)
    → All P (filter p xs)
All-filter p P [] sound = tt
All-filter p P (x ∷ xs) sound = elim (Bool-cases (p x)) [
  | inl in_it ↦ rw in_it (sound x in_it, All-filter p P xs sound)
  | inr out ↦ rw out (All-filter p P xs sound)
]

module _ (p : Document → Bool) (P : Document → Type 0) (sound : (d : Document) → p d ≡ true → P d)
    (complete : (d : Document) → p d ≡ false → P d → ⊥) where
  -- The rows that are selected, in an order, and the others.
  pub ordered-Selected :
      (before : Document → Document → Bool) (ds : List Document)
      → let others = filter (λ d. not (p d)) ds in
        Perm (order_by before (filter p ds) ++ others) ds
        × All P (order_by before (filter p ds))
        × All (λ d. P d → ⊥) others
  ordered-Selected before ds = (
    Perm.trans (Perm.append_right (filter (λ d. not (p d)) ds) (order_by-perm before (filter p ds)))
        (partition-perm p ds),
    All-order_by before P (filter p ds) (All-filter p P ds sound),
    All-filter (λ d. not (p d)) (λ d. P d → ⊥) ds (λ d h. complete d (ground arith)),
  )

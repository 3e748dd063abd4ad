-- ===== src/Index/Backfill/Engine/Totals.antt =====
-- The totals of the shared state against its segments, in whatever order the tasks take their steps.
use chainkit.Prelude.{
  All, List, Option, String, [], ap, arith, get_elem?, if◌then◌else◌, length, refl, set, some, suc,
  sym, true, u64, zero, ℕ, ◌+◌, ◌∙◌, ◌∷◌, ◌≡◌,
}
use chainkit.Index.Event.{DecodedEvent}
use chainkit.Index.Backfill.{
  BackfillSegment, pending, in_progress, complete, failed, has_status, block_count,
}
use chainkit.Index.Backfill.Engine.{EngineState, new, no_events, edit, start, succeed, give_up}

abbrev pub sum_of : (BackfillSegment → ℕ) → List BackfillSegment → ℕ
sum_of f [] = 0
sum_of f (s ∷ ss) = f s + sum_of f ss

-- What a segment adds to the two totals: nothing until it is complete.
abbrev pub blocks_of : BackfillSegment → ℕ
blocks_of g = if has_status complete g then block_count g else 0

abbrev pub events_of : BackfillSegment → ℕ
events_of g = if has_status complete g then g.events_processed else 0

sum_of-edit :
    (f : BackfillSegment → ℕ) (h : BackfillSegment → BackfillSegment) (i : ℕ)
    (ss : List BackfillSegment) (g : BackfillSegment)
    → get_elem? ss i ≡ some g
    → sum_of f (edit h i ss) + f g ≡ sum_of f ss + f (h g)
unfolding edit
sum_of-edit f h i [] g e = cc
sum_of-edit f h zero (s ∷ ss) g e =
    let same : s ≡ g = ground (arith, e) in rw (← same) (omega arith)
sum_of-edit f h (suc i) (s ∷ ss) g e = omega (arith, sum_of-edit f h i ss g e)

module _ {J : Type 0} where
  -- A complete segment has the events that it counts, and any other has none.
  abbrev pub Holds : BackfillSegment → List (DecodedEvent J) → Type 0
  Holds g es = length es ≡ events_of g

  abbrev pub Match : List BackfillSegment → List (List (DecodedEvent J)) → Type 0
  Match [] [] = Unit
  Match [] (es ∷ ess) = ⊥
  Match (g ∷ gs) [] = ⊥
  Match (g ∷ gs) (es ∷ ess) = Holds g es × Match gs ess

  pub record Accounts (s : EngineState J) : Type 0 where
    pub blocks : s.processed_blocks ≡ u64 (sum_of blocks_of s.segments)
    pub found : s.total_events ≡ u64 (sum_of events_of s.segments)
    pub kept : Match s.segments s.events

  -- The steps of the tasks: each has one segment, takes it up once and settles it once.
  pub data Step : EngineState J → EngineState J → Type 0 where
    starts :
        (s : EngineState J) (i : ℕ) (g : BackfillSegment)
        → get_elem? s.segments i ≡ some g
        → has_status pending g ≡ true
        → Step s (start s i)
    succeeds :
        (s : EngineState J) (i : ℕ) (g : BackfillSegment) (events : List (DecodedEvent J))
        (elapsed : ℕ)
        → get_elem? s.segments i ≡ some g
        → has_status in_progress g ≡ true
        → Step s (succeed s i g.from_block g.to_block events elapsed)
    gives_up :
        (s : EngineState J) (i : ℕ) (g : BackfillSegment) (last_error : Option String) (elapsed : ℕ)
        → get_elem? s.segments i ≡ some g
        → has_status in_progress g ≡ true
        → Step s (give_up s i last_error elapsed)

  pub data Reachable (segments : List BackfillSegment) : EngineState J → Type 0 where
    begin : Reachable segments (new segments)
    after : {s t : EngineState J} → Reachable segments s → Step s t → Reachable segments t

  edit-Match :
      (h : BackfillSegment → BackfillSegment) (i : ℕ) (gs : List BackfillSegment)
      (ess : List (List (DecodedEvent J))) (g : BackfillSegment)
      → get_elem? gs i ≡ some g
      → events_of (h g) ≡ events_of g
      → Match gs ess
      → Match (edit h i gs) ess
  unfolding edit
  edit-Match h i [] ess g e k m = cc
  edit-Match h i (x ∷ gs) [] g e k m = absurd m
  edit-Match h zero (x ∷ gs) (es ∷ ess) g e k m =
      let same : x ≡ g = ground (arith, e) in
      (m.0 ∙ ap events_of same ∙ sym k ∙ ap (λ y. events_of (h y)) (sym same), m.1)
  edit-Match h (suc i) (x ∷ gs) (es ∷ ess) g e k m = (m.0, edit-Match h i gs ess g e k m.1)

  set-Match :
      (h : BackfillSegment → BackfillSegment) (i : ℕ) (gs : List BackfillSegment)
      (ess : List (List (DecodedEvent J))) (g : BackfillSegment) (events : List (DecodedEvent J))
      → get_elem? gs i ≡ some g
      → length events ≡ events_of (h g)
      → Match gs ess
      → Match (edit h i gs) (set ess i events)
  unfolding edit
  set-Match h i [] ess g events e k m = cc
  set-Match h i (x ∷ gs) [] g events e k m = absurd m
  set-Match h zero (x ∷ gs) (es ∷ ess) g events e k m =
      let same : x ≡ g = ground (arith, e) in (k ∙ ap (λ y. events_of (h y)) (sym same), m.1)
  set-Match h (suc i) (x ∷ gs) (es ∷ ess) g events e k m =
      (m.0, set-Match h i gs ess g events e k m.1)

  Step-Accounts : {s t : EngineState J} → Step s t → Accounts s → Accounts t
  unfolding start succeed give_up block_count
  Step-Accounts (starts s i g e p) a =
      let h = λ (x : BackfillSegment). record x { status = in_progress } in
      record {
        blocks = ground (arith, a.blocks, p, sum_of-edit blocks_of h i s.segments g e);
        found = ground (arith, a.found, p, sum_of-edit events_of h i s.segments g e);
        kept = edit-Match h i s.segments s.events g e (ground (arith, p)) a.kept;
      }
  Step-Accounts (succeeds s i g events elapsed e p) a =
      let h = λ (x : BackfillSegment). record x {
        status = complete;
        events_processed = length events;
        duration = some elapsed;
      } in
      record {
        blocks = ground (arith, a.blocks, p, sum_of-edit blocks_of h i s.segments g e);
        found = ground (arith, a.found, p, sum_of-edit events_of h i s.segments g e);
        kept = set-Match h i s.segments s.events g events e refl a.kept;
      }
  Step-Accounts (gives_up s i g last_error elapsed e p) a =
      let h = λ (x : BackfillSegment). record x {
        status = failed;
        error = last_error;
        duration = some elapsed;
      } in
      record {
        blocks = ground (arith, a.blocks, p, sum_of-edit blocks_of h i s.segments g e);
        found = ground (arith, a.found, p, sum_of-edit events_of h i s.segments g e);
        kept = edit-Match h i s.segments s.events g e (ground (arith, p)) a.kept;
      }

begin_lem :
    (J : Type 0) (gs : List BackfillSegment)
    → All (λ g. has_status pending g ≡ true) gs
    → (sum_of blocks_of gs ≡ 0) × (sum_of events_of gs ≡ 0) × Match gs (no_events {J = J} gs)
unfolding no_events
begin_lem J [] h = (refl, refl, tt)
begin_lem J (g ∷ gs) h =
    let (b, e, m) = begin_lem J gs h.1 in
    (ground (arith, b, h.0), ground (arith, e, h.0), (ground (arith, h.0), m))

module _ {J : Type 0} where
  begin-Accounts :
      (segments : List BackfillSegment)
      → All (λ g. has_status pending g ≡ true) segments
      → Accounts (new {J = J} segments)
  unfolding new
  begin-Accounts segments h =
      let (b, e, m) = begin_lem J segments h in
      record { blocks = ground (arith, b); found = ground (arith, e); kept = m }

  -- In whatever order the tasks of pending segments start, succeed and give up, the totals are those
  -- of the complete segments, as words, and each complete segment has the events that it counts, any
  -- other none.
  pub interleavings-Accounts :
      (segments : List BackfillSegment) {s : EngineState J}
      → All (λ g. has_status pending g ≡ true) segments
      → Reachable segments s
      → Accounts s
  interleavings-Accounts segments h begin = begin-Accounts segments h
  interleavings-Accounts segments h (after r st) =
      Step-Accounts st (interleavings-Accounts segments h r)

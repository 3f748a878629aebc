-- ===== src/Conflicts/Counts.antt =====
-- How many conflicts of each kind are reported.
use siem_v.Prelude.{
  ℕ, suc, ◌+◌, ◌*◌, ◌≡◌, refl, ◌∙◌, Bool, true, false, not, ◌&&◌, ◌||◌, Option, none, some, List,
  [], ◌∷◌, ◌++◌, any, keep, length, ltb, arith, if◌then◌else◌,
}
use siem_v.Schema.{Event, Layer, Action, Bot}
use siem_v.Conflicts.{
  ConflictKind, Conflict, bot_score_suspicious, is_allowed, is_stopped, score_conflict_in,
  score_conflicts, layers_where, stale_conflict, disagreements_of, disagreements, unmapped_conflict,
  unmapped, analyse,
}

kind_code : ConflictKind → ℕ
kind_code ConflictKind.score_conflict = 0
kind_code ConflictKind.layer_disagreement = 1
kind_code ConflictKind.unmapped_verdict = 2
kind_code ConflictKind.blocked_after_allow = 3

abbrev pub same_kind : ConflictKind → ConflictKind → Bool
same_kind ConflictKind.score_conflict ConflictKind.score_conflict = true
same_kind ConflictKind.layer_disagreement ConflictKind.layer_disagreement = true
same_kind ConflictKind.unmapped_verdict ConflictKind.unmapped_verdict = true
same_kind ConflictKind.blocked_after_allow ConflictKind.blocked_after_allow = true
same_kind _ _ = false

-- The number of conflicts of a kind.
abbrev pub count : ConflictKind → List Conflict → ℕ
count k [] = 0
count k (c ∷ cs) = let rest = count k cs in if same_kind k c.kind then suc rest else rest

count-append :
    (k : ConflictKind) (xs ys : List Conflict) → count k (xs ++ ys) ≡ count k xs + count k ys
count-append k [] ys = omega arith
count-append k (x ∷ xs) ys = ground (arith, count-append k xs ys)

abbrev pub is_below : ℕ → Option ℕ → Bool
is_below limit none = false
is_below limit (some n) = ltb n limit

abbrev pub has_low_score : Option Bot → Bool
has_low_score none = false
has_low_score (some b) =
    is_below (1000 * bot_score_suspicious) b.datadome_score
    || is_below bot_score_suspicious b.cf_bot_score

-- An allowed event with a suspicious score.
abbrev pub is_suspicious : Event → Bool
is_suspicious e = is_allowed e.verdict.action && has_low_score e.bot

abbrev zero_unless : ConflictKind → ConflictKind → ℕ → ℕ
zero_unless k j n = if same_kind k j then n else 0

score_conflict_in-count :
    (k : ConflictKind) (e : Event)
    → count k (score_conflict_in e)
      ≡ zero_unless k ConflictKind.score_conflict (if is_suspicious e then 1 else 0)
unfolding score_conflict_in
score_conflict_in-count k e = ground arith

score_conflicts-count :
    (k : ConflictKind) (events : List Event)
    → count k (score_conflicts events)
      ≡ zero_unless k ConflictKind.score_conflict (length (keep is_suspicious events))
unfolding score_conflicts
score_conflicts-count k [] = ground arith
score_conflicts-count k (e ∷ rest) =
    count-append k (score_conflict_in e) (score_conflicts rest)
    ∙ ground (arith, score_conflict_in-count k e, score_conflicts-count k rest)

unmapped-count :
    (k : ConflictKind) (events : List Event)
    → count k (unmapped events)
      ≡ zero_unless k ConflictKind.unmapped_verdict
          (length (keep (λ e. not e.verdict.mapped) events))
unfolding unmapped unmapped_conflict
unmapped-count k [] = ground arith
unmapped-count k (e ∷ rest) = ground (arith, unmapped-count k rest)

-- Some layer took an action that passes the test.
abbrev pub any_action : (Action → Bool) → List Event → Bool
any_action test events = any (λ e. test e.verdict.action) events

abbrev is_nonempty : List Layer → Bool
is_nonempty [] = false
is_nonempty (l ∷ ls) = true

layers_where_nonempty :
    (test : Action → Bool) (events : List Event)
    → is_nonempty (layers_where test events) ≡ any_action test events
unfolding layers_where
layers_where_nonempty test [] = refl
layers_where_nonempty test (e ∷ rest) = ground (arith, layers_where_nonempty test rest)

disagreements_of-count :
    (events : List Event) (xs ys : List Layer)
    → (count ConflictKind.layer_disagreement (disagreements_of events xs ys)
        ≡ (if is_nonempty xs && is_nonempty ys then 1 else 0))
      × (count ConflictKind.score_conflict (disagreements_of events xs ys) ≡ 0)
      × (count ConflictKind.unmapped_verdict (disagreements_of events xs ys) ≡ 0)
unfolding disagreements_of stale_conflict
disagreements_of-count events [] ys = (refl, refl, refl)
disagreements_of-count events (a ∷ more) [] = (refl, refl, refl)
disagreements_of-count events (a ∷ more) (b ∷ rest) = (ground arith, ground arith, ground arith)

count-analyse :
    (k : ConflictKind) (events : List Event)
    → count k (analyse events)
      ≡ zero_unless k ConflictKind.score_conflict (length (keep is_suspicious events))
        + count k (
            disagreements_of events
              (layers_where is_allowed events)
              (layers_where is_stopped events))
        + zero_unless k ConflictKind.unmapped_verdict
            (length (keep (λ e. not e.verdict.mapped) events))
unfolding analyse disagreements
count-analyse k events =
    let opposed = disagreements events in
    count-append k (score_conflicts events ++ opposed) (unmapped events)
    ∙ omega (
      arith,
      count-append k (score_conflicts events) opposed,
      score_conflicts-count k events,
      unmapped-count k events,
    )

-- One conflict is reported for each allowed event with a suspicious score, one for each event with
-- an unknown verdict, and a single disagreement exactly if some event was allowed and some event
-- was blocked or failed its challenge.
pub analyse_counts :
    (events : List Event)
    → (count ConflictKind.score_conflict (analyse events) ≡ length (keep is_suspicious events))
      × (count ConflictKind.unmapped_verdict (analyse events)
          ≡ length (keep (λ e. not e.verdict.mapped) events))
      × (count ConflictKind.layer_disagreement (analyse events)
          ≡ (if any_action is_allowed events && any_action is_stopped events then 1 else 0))
analyse_counts events =
    let (opposed, no_score, no_unmapped) =
      disagreements_of-count events (layers_where is_allowed events)
        (layers_where is_stopped events) in
    let allowed = layers_where_nonempty is_allowed events in
    let stopped = layers_where_nonempty is_stopped events in
    (
      count-analyse ConflictKind.score_conflict events ∙ omega (arith, no_score),
      count-analyse ConflictKind.unmapped_verdict events ∙ omega (arith, no_unmapped),
      count-analyse ConflictKind.layer_disagreement events
          ∙ ground (arith, opposed, allowed, stopped),
    )

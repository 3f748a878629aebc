-- ===== src/Conflicts.antt =====
-- Disagreements between the layers of a flow: backend/internal/biz/verdict/conflict.go. A
-- description is the data that the source formats into a sentence.
pub mod Counts
use siem_v.Prelude.{
  ℕ, suc, ◌+◌, ◌*◌, Bool, true, false, Option, none, some, List, [], ◌∷◌, ◌++◌, ltb, if◌then◌else◌,
}
use siem_v.Prelude.Text.{Str}
use siem_v.Prelude.Time.{ℤ, pos, negsuc, ltb_ℤ}
use siem_v.Schema.{Event, Layer, Action, Bot, layer_eq}

pub data ConflictKind : Type 0 where
  score_conflict layer_disagreement unmapped_verdict blocked_after_allow : ConflictKind

pub data Severity : Type 0 where
  low medium high : Severity

pub data Description : Type 0 where
  automated bot_scored : Layer → ℕ → Description
  opposed : List Layer → List Layer → Description
  outer_stale : Layer → Layer → Description
  unrecognized : Str → Description

pub record Conflict : Type 0 where
  pub kind : ConflictKind
  pub description : Description
  pub layers : List Layer
  pub severity : Severity

abbrev pub bot_score_suspicious : ℕ
bot_score_suspicious = 20

unfoldable pub is_allowed : Action → Bool
is_allowed Action.allowed = true
is_allowed _ = false

unfoldable pub is_stopped : Action → Bool
is_stopped Action.blocked = true
is_stopped Action.challenge_failed = true
is_stopped _ = false

score_conflict_of : Layer → Description → Severity → List Conflict
score_conflict_of l d s =
    record { kind = score_conflict; description = d; layers = l ∷ []; severity = s } ∷ []

-- The second score is looked at if the first is missing or not suspicious. The first is in
-- thousandths.
cf_conflict : Layer → Option ℕ → List Conflict
cf_conflict l none = []
cf_conflict l (some n) =
    if ltb n bot_score_suspicious then score_conflict_of l (bot_scored l n) low else []

datadome_conflict : Layer → Option ℕ → List Conflict → List Conflict
datadome_conflict l none next = next
datadome_conflict l (some n) next =
    if ltb n (1000 * bot_score_suspicious) then score_conflict_of l (automated l n) medium else next

bot_conflict : Layer → Option Bot → List Conflict
bot_conflict l none = []
bot_conflict l (some b) = datadome_conflict l b.datadome_score (cf_conflict l b.cf_bot_score)

unfoldable pub score_conflict_in : Event → List Conflict
unfolding is_allowed score_conflict_of cf_conflict datadome_conflict bot_conflict
score_conflict_in e = if is_allowed e.verdict.action then bot_conflict e.layer e.bot else []

unfoldable pub score_conflicts : List Event → List Conflict
score_conflicts [] = []
score_conflicts (e ∷ rest) = score_conflict_in e ++ score_conflicts rest

unfoldable pub layers_where : (Action → Bool) → List Event → List Layer
layers_where test [] = []
layers_where test (e ∷ rest) =
    let later = layers_where test rest in if test e.verdict.action then e.layer ∷ later else later

-- −1 if no event is of the layer.
unfoldable pub first_index_from : ℕ → List Event → Layer → ℤ
first_index_from i [] layer = negsuc 0
first_index_from i (e ∷ rest) layer =
    let later = first_index_from (suc i) rest layer in
    if layer_eq e.layer layer then pos i else later

unfoldable pub first_index : List Event → Layer → ℤ
first_index events layer = first_index_from 0 events layer

unfoldable pub stale_conflict : List Event → Layer → Layer → List Conflict
stale_conflict events a b =
    if ltb_ℤ (first_index events a) (first_index events b)
    then (record {
      kind = blocked_after_allow;
      description = outer_stale a b;
      layers = a ∷ b ∷ [];
      severity = high;
    }
        ∷ [])
    else []

unfoldable pub disagreements_of : List Event → List Layer → List Layer → List Conflict
disagreements_of events (a ∷ more) (b ∷ rest) =
    record {
      kind = layer_disagreement;
      description = opposed (a ∷ more) (b ∷ rest);
      layers = (a ∷ more) ++ (b ∷ rest);
      severity = medium;
    }
    ∷ stale_conflict events a b
disagreements_of events _ _ = []

unfoldable pub disagreements : List Event → List Conflict
disagreements events =
    disagreements_of events (layers_where is_allowed events) (layers_where is_stopped events)

unfoldable pub unmapped_conflict : Event → Conflict
unmapped_conflict e = record {
  kind = unmapped_verdict;
  description = unrecognized e.provider;
  layers = e.layer ∷ [];
  severity = low;
}

unfoldable pub unmapped : List Event → List Conflict
unmapped [] = []
unmapped (e ∷ rest) =
    let later = unmapped rest in if e.verdict.mapped then later else unmapped_conflict e ∷ later

unfoldable pub analyse : List Event → List Conflict
analyse events = score_conflicts events ++ disagreements events ++ unmapped events

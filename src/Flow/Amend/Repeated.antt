-- ===== src/Flow/Amend/Repeated.antt =====
-- A late event amends its flow once.
use siem_v.Prelude.{
  ◌≡◌, ◌≢◌, refl, ap, ◌∙◌, true, false, ◌||◌, Option, none, List, [], ◌∷◌, ◌++◌, arith,
}
use siem_v.Prelude.Text.{Str, str_eq, str_eq_refl}
use siem_v.Prelude.Time.{Time}
use siem_v.Schema.{Event}
use siem_v.Flow.{Flow, flow_id_of}
use siem_v.Flow.Events.{
  materialize_total, materialize-events, any-order_events, has_id, has_id-append,
}
use siem_v.Flow.Amend.{
  Loaded, amend, amend_found, amend_new, amend_loaded, amend_options, mark, store_amended, found,
  kept, stored,
}

-- What an amended flow is, beside the stored one.
pub record IsAmendment (existing : Flow) (late : Event) (m : Flow) : Type 0 where
  pub ids : (s : Str) → has_id s m.events ≡ (has_id s existing.events || str_eq late.event_id s)
  pub amended : m.amended ≡ true
  pub closed_at : m.closed_at ≡ existing.closed_at

append_nonempty : (xs : List Event) (e : Event) → xs ++ e ∷ [] ≢ []
append_nonempty [] e h = cc
append_nonempty (x ∷ xs) e h = cc

amend_found-stored :
    (write : Flow → Option Str) (now : Time) (key : Str) (late : Event) (existing : Flow)
    → ((f : Flow) → write f ≡ none)
    → has_id late.event_id existing.events ≡ false
    → (m : Flow) × (amend_found write now key late existing ≡ stored m)
      × IsAmendment existing late m
unfolding amend_found amend_new store_amended mark
amend_found-stored write now key late existing writes new =
    let events = existing.events ++ late ∷ [] in
    let opts = amend_options existing now in
    let (f, made) = materialize_total key events opts (append_nonempty existing.events late) in
    (
      mark existing f,
      rw (new, made) (ap (store_amended (mark existing f)) (writes (mark existing f))),
      record {
        ids = λ s.
            ap (has_id s) (materialize-events key events opts f made)
            ∙ any-order_events (λ e. str_eq e.event_id s) events
            ∙ has_id-append s existing.events (late ∷ [])
            ∙ ground arith;
        amended = refl;
        closed_at = refl;
      },
    )

-- A late event that the stored flow has not is amended to it where the write succeeds: the result
-- has the events of the stored flow and the late one, is marked, and keeps the closing time. Once
-- that flow is the stored one, the same event again leaves it as it is, and nothing is written.
pub amend_repeated :
    (load : Str → Str → Loaded) (write : Flow → Option Str) (now later : Time) (tenant key : Str)
    (late : Event) (existing : Flow)
    → load tenant (flow_id_of key) ≡ found existing
    → ((f : Flow) → write f ≡ none)
    → has_id late.event_id existing.events ≡ false
    → (m : Flow) × (amend load write now tenant key late ≡ stored m)
      × IsAmendment existing late m
      × (amend (λ t id. found m) write later tenant key late ≡ kept m)
unfolding amend amend_loaded
amend_repeated load write now later tenant key late existing loaded writes new =
    let (m, made, amendment) = amend_found-stored write now key late existing writes new in
    let there : has_id late.event_id m.events ≡ true =
      ground (arith, amendment.ids late.event_id, str_eq_refl late.event_id) in
    (m, rw loaded made, amendment, unfold amend_found in (rw there refl))

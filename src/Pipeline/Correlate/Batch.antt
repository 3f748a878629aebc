-- ===== src/Pipeline/Correlate/Batch.antt =====
-- A whole run of `Correlate`.
use mathlib.Core.List.{map}
use siem_v.Prelude.{
  ◌≡◌, ◌≢◌, refl, sym, ◌∙◌, subst, true, Option, none, some, List, [], ◌∷◌, All, All-map, All-mem,
  Memᴰ, Bool-cases, inl, inr, arith,
}
use siem_v.Prelude.Text.{Str, str_eq}
use siem_v.Prelude.Time.{Time}
use siem_v.Prelude.Maps.{Map, lookup}
use siem_v.Schema.{Event}
use siem_v.Keys.{Identifier, to_string}
use siem_v.Window.Contents.{holds}
use siem_v.Pipeline.{Record, Pipeline}
use siem_v.Pipeline.Correlate.{
  ids_of, claim, claim_all, ensure_key, merge_key_state, merge_into, merge_one, merge_all,
  merge_existing, mark_bridged, add_to_window, existing_keys, choose_key, open_window,
  correlate_event, correlate_found, correlate_record, correlate_from, correlate,
}
use siem_v.Pipeline.Correlate.Index.{IsConsistent}
use siem_v.Pipeline.Correlate.Placed.{IsPlaced, Carries, Carries-trans}
use siem_v.Pipeline.Correlate.Merging.{Carries-refl}
use siem_v.Pipeline.Correlate.Joins.{correlate_event-Placing}

events-claim_all :
    (key : Str) (ss : List Str) (p : Pipeline) → (claim_all key ss p).events ≡ p.events
unfolding claim_all claim
events-claim_all key [] p = refl
events-claim_all key (s ∷ ss) p = events-claim_all key ss (claim key s p)

events-merge_one : (key k : Str) (p : Pipeline) → (merge_one key k p).events ≡ p.events
unfolding merge_one merge_into merge_key_state ensure_key
events-merge_one key k p = elim (Bool-cases (str_eq k key)) [
  | inl same ↦ rw same refl
  | inr differ ↦ rw differ (events-claim_all key (ids_of p.key_ids k) _)
]

events-merge_all :
    (key : Str) (ks : List Str) (p : Pipeline) → (merge_all key ks p).events ≡ p.events
unfolding merge_all
events-merge_all key [] p = refl
events-merge_all key (k ∷ ks) p =
    events-merge_all key ks (merge_one key k p) ∙ events-merge_one key k p

events-merge_existing :
    (key : Str) (ks : List Str) (p : Pipeline) → (merge_existing key ks p).events ≡ p.events
unfolding merge_existing
events-merge_existing key [] p = refl
events-merge_existing key (k ∷ []) p = refl
events-merge_existing key (k ∷ j ∷ ks) p = events-merge_all key (k ∷ j ∷ ks) p

events-correlate_event :
    (now : Time) (ids : List Identifier) (e : Event) (p : Pipeline)
    → (correlate_event now ids e p).events ≡ p.events
unfolding correlate_event open_window ensure_key add_to_window mark_bridged
events-correlate_event now ids e p =
    let strs = map to_string ids in
    let existing = existing_keys p.id_index strs [] in
    let key = choose_key ids strs existing in
    events-claim_all key strs _ ∙ events-merge_existing key existing p

events-correlate_found :
    (now : Time) (ids : List Identifier) (o : Option Event) (p : Pipeline)
    → (correlate_found now ids o p).events ≡ p.events
unfolding correlate_found
events-correlate_found now [] o p = refl
events-correlate_found now (i ∷ ids) none p = refl
events-correlate_found now (i ∷ ids) (some e) p = events-correlate_event now (i ∷ ids) e p

correlate_found-Carries :
    (now : Time) (ids : List Identifier) (o : Option Event) (p : Pipeline)
    → IsConsistent p
    → Carries p (correlate_found now ids o p)
unfolding correlate_found
correlate_found-Carries now [] o p c = Carries-refl p c
correlate_found-Carries now (i ∷ ids) none p c = Carries-refl p c
correlate_found-Carries now (i ∷ ids) (some e) p c =
    (correlate_event-Placing now (i ∷ ids) e p c).carries

-- The events are those that the pipeline knows; the records are placed if they have identifiers.
abbrev pub IsJoined : Map Event → Pipeline → Record → Type 0
IsJoined events q r =
    (e : Event)
    → lookup r.event_id events ≡ some e
    → r.identifiers ≢ []
    → IsPlaced q e (map to_string r.identifiers)

correlate_found-IsPlaced :
    (now : Time) (ids : List Identifier) (e : Event) (p : Pipeline)
    → IsConsistent p
    → ids ≢ []
    → IsPlaced (correlate_found now ids (some e) p) e (map to_string ids)
unfolding correlate_found
correlate_found-IsPlaced now [] e p c n = absurd (n refl)
correlate_found-IsPlaced now (i ∷ ids) e p c n = (correlate_event-Placing now (i ∷ ids) e p c).own

record Outcome (p q : Pipeline) (records : List Record) : Type 0 where
  carries : Carries p q
  joined : All (IsJoined p.events q) records

correlate_from-Outcome :
    (now : Time) (records : List Record) (p : Pipeline)
    → IsConsistent p
    → Outcome p (correlate_from now records p) records
unfolding correlate_from correlate_record
correlate_from-Outcome now [] p c = record { carries = Carries-refl p c; joined = tt }
correlate_from-Outcome now (r ∷ rest) p c =
    let found = lookup r.event_id p.events in
    let q = correlate_found now r.identifiers found p in
    let step = correlate_found-Carries now r.identifiers found p c in
    let later = correlate_from-Outcome now rest q step.consistent in
    let same : q.events ≡ p.events = events-correlate_found now r.identifiers found p in
    record {
      carries = Carries-trans p q (correlate_from now rest q) step later.carries;
      joined = (
        λ e known n. later.carries.placed e (map to_string r.identifiers) (
            subst
              (λ o.
                IsPlaced (correlate_found now r.identifiers o p) e (map to_string r.identifiers))
              (sym known) (correlate_found-IsPlaced now r.identifiers e p c n)),
        subst (λ m. All (IsJoined m (correlate_from now rest q)) rest) same later.joined,
      );
    }

-- `correlate` keeps the identifier index consistent, keeps every event in the window that its
-- identifiers lead to, and puts every waiting event with identifiers there.
pub correlate-IsJoined :
    (now : Time) (p : Pipeline)
    → IsConsistent p
    → IsConsistent (correlate now p)
      × ((e : Event) (strs : List Str) → IsPlaced p e strs → IsPlaced (correlate now p) e strs)
      × All (IsJoined p.events (correlate now p)) p.records
unfolding correlate
correlate-IsJoined now p c =
    let out = correlate_from-Outcome now p.records p c in
    let final = correlate_from now p.records p in
    let done = correlate now p in
    (
      record { agree = out.carries.consistent.agree },
      λ e strs place. reset e strs (out.carries.placed e strs place),
      All-map (IsJoined p.events final) (IsJoined p.events done) p.records
          (λ r joined e known n. reset e (map to_string r.identifiers) (joined e known n))
          out.joined,
    )
  where
    reset :
        (e : Event) (strs : List Str)
        → IsPlaced (correlate_from now p.records p) e strs
        → IsPlaced (correlate now p) e strs
    reset e strs place = record { key = place.key; held = place.held; indexed = place.indexed }

-- Two events that were placed and share an identifier are in one window.
shared_identifier-joins :
    (p : Pipeline) (e f : Event) (ss ts : List Str) (s : Str)
    → IsPlaced p e ss
    → IsPlaced p f ts
    → Memᴰ s ss
    → Memᴰ s ts
    → (key : Str) × (holds p.window key e ≡ true) × (holds p.window key f ≡ true)
shared_identifier-joins p e f ss ts s a b m n =
    let first = All-mem (λ t. lookup t p.id_index ≡ some a.key) a.indexed m in
    let second = All-mem (λ t. lookup t p.id_index ≡ some b.key) b.indexed n in
    let same : b.key ≡ a.key = ground (arith, first, second) in
    (a.key, a.held, subst (λ k. holds p.window k f ≡ true) same b.held)

-- The identifiers of a record in their text form.
abbrev pub texts_of : Record → List Str
texts_of r = map to_string r.identifiers

map-nonempty : (ids : List Identifier) (s : Str) → Memᴰ s (map to_string ids) → ids ≢ []
map-nonempty [] s m h = elim m [ ]
map-nonempty (i ∷ ids) s m h = cc

has_identifiers : (r : Record) (s : Str) → Memᴰ s (texts_of r) → r.identifiers ≢ []
has_identifiers r s m = map-nonempty r.identifiers s m

-- One run of `correlate` puts two waiting events whose records share an identifier in one window.
pub correlate-joins :
    (now : Time) (p : Pipeline) (q r : Record) (e f : Event) (s : Str)
    → IsConsistent p
    → Memᴰ q p.records
    → Memᴰ r p.records
    → lookup q.event_id p.events ≡ some e
    → lookup r.event_id p.events ≡ some f
    → Memᴰ s (texts_of q)
    → Memᴰ s (texts_of r)
    → (key : Str) × (holds (correlate now p).window key e ≡ true)
      × (holds (correlate now p).window key f ≡ true)
correlate-joins now p q r e f s c mq mr known_e known_f in_q in_r =
    let joined = (correlate-IsJoined now p c).2 in
    shared_identifier-joins (correlate now p) e f (texts_of q) (texts_of r) s
      (All-mem (IsJoined p.events (correlate now p)) joined mq e known_e (has_identifiers q s in_q))
      (All-mem (IsJoined p.events (correlate now p)) joined mr f known_f (has_identifiers r s in_r))
      in_q in_r

-- An event that is placed, in whatever earlier run, and a waiting event whose record shares an
-- identifier with it are in one window after `correlate`.
pub correlate-joins_late :
    (now : Time) (p : Pipeline) (e f : Event) (ss : List Str) (r : Record) (s : Str)
    → IsConsistent p
    → IsPlaced p e ss
    → Memᴰ r p.records
    → lookup r.event_id p.events ≡ some f
    → Memᴰ s ss
    → Memᴰ s (texts_of r)
    → (key : Str) × (holds (correlate now p).window key e ≡ true)
      × (holds (correlate now p).window key f ≡ true)
correlate-joins_late now p e f ss r s c placed mr known in_e in_r =
    let (_, kept, joined) = correlate-IsJoined now p c in
    shared_identifier-joins (correlate now p) e f ss (texts_of r) s (kept e ss placed)
      (All-mem (IsJoined p.events (correlate now p)) joined mr f known (has_identifiers r s in_r))
      in_e in_r

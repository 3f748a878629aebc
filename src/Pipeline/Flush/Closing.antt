-- ===== src/Pipeline/Flush/Closing.antt =====
-- What the closing part of `Flush` leaves of the identifier index.
use siem_v.Prelude.{
  ◌≡◌, ◌≢◌, refl, Option, none, some, List, [], ◌∷◌, All, All-map, arith, if◌then◌else◌,
}
use siem_v.Prelude.Text.{Str, str_eq_refl, str_eq→eq}
use siem_v.Prelude.Time.{Time}
use siem_v.Prelude.Maps.{Map, lookup, delete, lookup-delete, lookup-delete_self}
use siem_v.Schema.{Event}
use siem_v.Window.{State, ready}
use siem_v.Flow.{Flow}
use siem_v.Flow.Events.{materialize_total}
use siem_v.Flow.Materialize.{materialize}
use siem_v.Pipeline.{Pipeline, member}
use siem_v.Pipeline.Correlate.{ids_of}
use siem_v.Pipeline.Correlate.Index.{IsConsistent, owns-delete}
use siem_v.Pipeline.Flush.{
  delete_keys, collect_event_ids, forget, close_state, close_states, close_windows, flow_options,
}

delete_keys-lookup {ℓ} :
    {V : Type ℓ} (ks : List Str) (s : Str) (m : Map V)
    → lookup s (delete_keys ks m) ≡ (if member s ks then none else lookup s m)
unfolding delete_keys member
delete_keys-lookup [] s m = refl
delete_keys-lookup (k ∷ ks) s m =
    ground (arith, delete_keys-lookup ks s (delete k m), lookup-delete k s m)

delete_keys-absent {ℓ} :
    {V : Type ℓ} (ks : List Str) (s : Str) (m : Map V)
    → lookup s m ≡ none
    → lookup s (delete_keys ks m) ≡ none
delete_keys-absent ks s m h = ground (arith, delete_keys-lookup ks s m)

delete-absent {ℓ} :
    {V : Type ℓ} (k s : Str) (m : Map V) → lookup s m ≡ none → lookup s (delete k m) ≡ none
delete-absent k s m h = ground (arith, lookup-delete k s m)

forget-IsConsistent : (p : Pipeline) (st : State) → IsConsistent p → IsConsistent (forget p st)
unfolding forget
forget-IsConsistent p st c = record {
  agree = λ s k.
      let to = delete_keys-lookup (ids_of p.key_ids st.correlation_key) s p.id_index in
      let by = owns-delete st.correlation_key k s p.key_ids in
      let fact = c.agree s k in
      let closed = c.agree s st.correlation_key in
      ground (
        arith,
        to,
        by,
        fact.0,
        fact.1,
        closed.0,
        closed.1,
        str_eq→eq st.correlation_key k,
        str_eq_refl st.correlation_key,
      );
}

-- Nothing is left of a window in the maps of the pipeline.
pub record IsForgotten (p : Pipeline) (st : State) : Type 0 where
  pub unowned : lookup st.correlation_key p.key_ids ≡ none
  pub unbridged : lookup st.correlation_key p.bridged ≡ none
  pub unknown : All (λ e. lookup e.event_id p.events ≡ none) st.events

events_gone :
    (es : List Event) (m : Map Event)
    → All (λ e. lookup e.event_id (delete_keys (collect_event_ids es) m) ≡ none) es
unfolding collect_event_ids delete_keys
events_gone [] m = tt
events_gone (e ∷ es) m = (
  delete_keys-absent (collect_event_ids es) e.event_id (delete e.event_id m)
      (lookup-delete_self e.event_id m),
  events_gone es (delete e.event_id m),
)

forget-IsForgotten : (p : Pipeline) (st : State) → IsForgotten (forget p st) st
unfolding forget
forget-IsForgotten p st = record {
  unowned = lookup-delete_self st.correlation_key p.key_ids;
  unbridged = lookup-delete_self st.correlation_key p.bridged;
  unknown = events_gone st.events p.events;
}

forget-keeps :
    (p : Pipeline) (st before : State) → IsForgotten p before → IsForgotten (forget p st) before
unfolding forget
forget-keeps p st before f = record {
  unowned = delete-absent st.correlation_key before.correlation_key p.key_ids f.unowned;
  unbridged = delete-absent st.correlation_key before.correlation_key p.bridged f.unbridged;
  unknown =
      All-map (λ e. lookup e.event_id p.events ≡ none) _ before.events
        (λ e gone. delete_keys-absent (collect_event_ids st.events) e.event_id p.events gone)
        f.unknown;
}

-- The steps of the loop only forget.
record Closes (p q : Pipeline) : Type 0 where
  consistent : IsConsistent p → IsConsistent q
  kept : (st : State) → IsForgotten p st → IsForgotten q st

close_state-Closes : (o : Option Flow) (st : State) (p : Pipeline) → Closes p (close_state o st p).1
unfolding close_state
close_state-Closes none st p = record { consistent = λ c. c; kept = λ before f. f }
close_state-Closes (some f) st p = record {
  consistent = forget-IsConsistent p st;
  kept = forget-keeps p st;
}

close_states-Closes :
    (now : Time) (done : List State) (p : Pipeline) → Closes p (close_states now done p).1
unfolding close_states
close_states-Closes now [] p = record { consistent = λ c. c; kept = λ before f. f }
close_states-Closes now (st ∷ rest) p =
    let o = materialize st.correlation_key st.events (flow_options p now st) in
    let step = close_state-Closes o st p in
    let later = close_states-Closes now rest (close_state o st p).1 in
    record {
      consistent = λ c. later.consistent (step.consistent c);
      kept = λ before f. later.kept before (step.kept before f);
    }

close_state-IsForgotten :
    (o : Option Flow) (st : State) (p : Pipeline)
    → (f : Flow) × (o ≡ some f)
    → IsForgotten (close_state o st p).1 st
unfolding close_state
close_state-IsForgotten none st p (f, h) = cc
close_state-IsForgotten (some g) st p h = forget-IsForgotten p st

close_states-IsForgotten :
    (now : Time) (done : List State) (p : Pipeline)
    → All (λ st. st.events ≢ [] → IsForgotten (close_states now done p).1 st) done
unfolding close_states
close_states-IsForgotten now [] p = tt
close_states-IsForgotten now (st ∷ rest) p =
    let opts = flow_options p now st in
    let o = materialize st.correlation_key st.events opts in
    let q = (close_state o st p).1 in
    (
      λ n.
          (close_states-Closes now rest q).kept st (
            close_state-IsForgotten o st p (materialize_total st.correlation_key st.events opts n)),
      close_states-IsForgotten now rest q,
    )

-- Closing windows keeps the identifier index consistent, and of each window that it closes (one
-- without events apart) it leaves nothing: no identifiers, no mark, none of its events.
pub close_windows-IsForgotten :
    (now : Time) (p : Pipeline)
    → IsConsistent p
    → IsConsistent (close_windows now p).1
      × All (λ st. st.events ≢ [] → IsForgotten (close_windows now p).1 st) (ready p.window now).0
unfolding close_windows
close_windows-IsForgotten now p c =
    let (done, w) = ready p.window now in
    let q = record p { window = w } in
    (
      (close_states-Closes now done q).consistent (record { agree = c.agree }),
      close_states-IsForgotten now done q,
    )

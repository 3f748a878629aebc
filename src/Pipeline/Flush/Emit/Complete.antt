-- ===== src/Pipeline/Flush/Emit/Complete.antt =====
-- Which flows one `Flush` stores.
use mathlib.Core.List.{append_assoc, append-nil}
use siem_v.Prelude.{
  ◌≡◌, refl, sym, ap, ◌∙◌, subst, Option, none, some, List, [], ◌∷◌, ◌++◌, map, length,
  length-append, leb, Bool-cases, Option-cases, inl, inr, arith,
}
use siem_v.Prelude.Text.{Str}
use siem_v.Prelude.Time.{Time}
use siem_v.Flow.{Flow}
use siem_v.Pipeline.{Pipeline}
use siem_v.Pipeline.Flush.{
  straggler_merge, merged_or_own, merge_with_stored, is_recent, close_windows,
}
use siem_v.Pipeline.Flush.Emit.{
  Store, Error, Progress, store_flows, emit_done, emit_pending, emit, emit_if_full, push,
  flush_from, start, flush,
}

abbrev pub keys_of : List Flow → List Str
keys_of fs = map (λ f. f.correlation_key) fs

keys_of-append : (fs gs : List Flow) → keys_of (fs ++ gs) ≡ keys_of fs ++ keys_of gs
keys_of-append [] gs = refl
keys_of-append (f ∷ fs) gs = ap (λ ks. f.correlation_key ∷ ks) (keys_of-append fs gs)

merged_or_own-key :
    (o : Option Flow) (f : Flow) → (merged_or_own o f).correlation_key ≡ f.correlation_key
unfolding merged_or_own
merged_or_own-key none f = refl
merged_or_own-key (some m) f = refl

-- A late flow that is merged keeps its key.
straggler_merge-key :
    (load : Str → Str → Option Flow) (p : Pipeline) (now : Time) (f : Flow)
    → (straggler_merge load p now f).correlation_key ≡ f.correlation_key
unfolding straggler_merge
straggler_merge-key load p now f = elim (Bool-cases (is_recent p.recent_keys f.correlation_key)) [
  | inl late ↦ rw late (
      merged_or_own-key
        (merge_with_stored p (load f.tenant f.flow_id) f.tenant f.correlation_key f now) f)
  | inr fresh ↦ rw fresh refl
]

-- The keys in hand: of the flows that were emitted and of those that wait.
abbrev keys_in : Progress → List Str
keys_in g = keys_of g.emitted ++ keys_of g.pending

-- What a step of emitting promises.
record Emits (g h : Progress) : Type 0 where
  counted : g.stored ≡ length g.emitted → h.stored ≡ length h.emitted
  keys : keys_in h ≡ keys_in g

emit_done-Emits : (now : Time) (g : Progress) (o : Option Error) → Emits g (emit_done now g o)
unfolding emit_done
emit_done-Emits now g (some e) = record { counted = λ c. c; keys = refl }
emit_done-Emits now g none = record {
  counted = λ c. omega (arith, length-append g.emitted g.pending, c);
  keys = append-nil _ ∙ keys_of-append g.emitted g.pending;
}

emit_pending-Emits :
    (store : Store) (now : Time) (g : Progress) (fs : List Flow)
    → Emits g (emit_pending store now g fs)
unfolding emit_pending
emit_pending-Emits store now g [] = record { counted = λ c. c; keys = refl }
emit_pending-Emits store now g (f ∷ fs) = emit_done-Emits now g (store_flows store (f ∷ fs))

emit_if_full-Emits :
    (store : Store) (now : Time) (g : Progress) → Emits g (emit_if_full store now g)
unfolding emit_if_full emit
emit_if_full-Emits store now g = elim (Bool-cases (leb 500 (length g.pending))) [
  | inl full ↦ rw full (emit_pending-Emits store now g g.pending)
  | inr not_full ↦ rw not_full (record { counted = λ c. c; keys = refl })
]

emit_done_waits :
    (now : Time) (g : Progress) (o : Option Error)
    → (emit_done now g o).failed ≡ none
    → (emit_done now g o).pending ≡ []
unfolding emit_done
emit_done_waits now g none h = refl
emit_done_waits now g (some e) h = cc

-- The last call of `emit` leaves nothing waiting, unless it fails.
emit_pending_waits :
    (store : Store) (now : Time) (g : Progress) (fs : List Flow)
    → g.pending ≡ fs
    → (emit_pending store now g fs).failed ≡ none
    → (emit_pending store now g fs).pending ≡ []
unfolding emit_pending
emit_pending_waits store now g [] e h = e
emit_pending_waits store now g (f ∷ fs) e h = emit_done_waits now g (store_flows store (f ∷ fs)) h

push-keys :
    (load : Str → Str → Option Flow) (p : Pipeline) (now : Time) (f : Flow) (g : Progress)
    → keys_in (push load p now f g) ≡ keys_in g ++ f.correlation_key ∷ []
unfolding push
push-keys load p now f g =
    let own = straggler_merge-key load (record p { recent_keys = g.recent }) now f in
    ap (λ ks. keys_of g.emitted ++ ks)
      (keys_of-append g.pending _ ∙ ap (λ k. keys_of g.pending ++ k ∷ []) own)
    ∙ sym (append_assoc (keys_of g.emitted) (keys_of g.pending) (f.correlation_key ∷ []))

-- What the loop leaves: the number returned is that of the flows emitted, these come first in the
-- order of closing, and all of them do if no write failed.
pub record Flushed (closed : List Str) (out : Progress) : Type 0 where
  pub counted : out.stored ≡ length out.emitted
  pub left : List Str
  pub split : closed ≡ keys_of out.emitted ++ left
  pub none_left : out.failed ≡ none → left ≡ []

flush_from-Flushed :
    (store : Store) (load : Str → Str → Option Flow) (p : Pipeline) (now : Time) (flows : List Flow)
    (g : Progress)
    → g.stored ≡ length g.emitted
    → Flushed (keys_in g ++ keys_of flows) (flush_from store load p now flows g)
unfolding flush_from emit
flush_from-Flushed store load p now [] g c =
    let last = emit_pending-Emits store now g g.pending in
    let out = emit_pending store now g g.pending in
    record {
      counted = last.counted c;
      left = keys_of out.pending;
      split = append-nil _ ∙ sym last.keys;
      none_left = λ h. ap keys_of (emit_pending_waits store now g g.pending refl h);
    }
flush_from-Flushed store load p now (f ∷ rest) g c =
    let pushed = push load p now f g in
    let next = emit_if_full store now pushed in
    let step = emit_if_full-Emits store now pushed in
    let counted = step.counted (unfold push in c) in
    let keys : keys_in g ++ keys_of (f ∷ rest) ≡ keys_in next ++ keys_of rest = sym (
      ap (λ ks. ks ++ keys_of rest) (step.keys ∙ push-keys load p now f g)
      ∙ append_assoc (keys_in g) (f.correlation_key ∷ []) (keys_of rest)) in
    elim (Option-cases next.failed) [
      | inl fine ↦
          rw (flush_from, fine)
            (subst (λ ks. Flushed ks (flush_from store load p now rest next)) (sym keys)
              (flush_from-Flushed store load p now rest next counted))
      | inr (e, broken) ↦
          rw (flush_from, broken)
            (record {
              counted = counted;
              left = keys_of next.pending ++ keys_of rest;
              split =
                  keys ∙ append_assoc (keys_of next.emitted) (keys_of next.pending) (keys_of rest);
              none_left = λ h. cc;
            })
    ]

-- One flush reports as stored the number of the flows that it emitted; these are, by key and in
-- order, the first of the flows whose windows closed, and all of them if no write failed.
pub flush-Flushed :
    (store : Store) (load : Str → Str → Option Flow) (now : Time) (p : Pipeline)
    → Flushed (keys_of (close_windows now p).0) (flush store load now p).0
unfolding flush start
flush-Flushed store load now p =
    let (flows, q) = close_windows now p in
    flush_from-Flushed store load q now flows (start q.recent_keys) refl

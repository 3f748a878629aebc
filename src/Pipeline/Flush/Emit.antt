-- ===== src/Pipeline/Flush/Emit.antt =====
-- The storing part of `Flush` of backend/internal/biz/flow/pipeline.go, outside the lock. The
-- store is a parameter: it answers each write with an error or none.
pub mod Complete
use siem_v.Prelude.{
  ℕ, ◌+◌, Bool, Option, none, some, List, [], ◌∷◌, ◌++◌, length, leb, if◌then◌else◌,
}
use siem_v.Prelude.Text.{Str}
use siem_v.Prelude.Time.{Time}
use siem_v.Prelude.Maps.{Map, put}
use siem_v.Flow.{Flow}
use siem_v.Pipeline.{Pipeline}
use siem_v.Pipeline.Flush.{straggler_merge, prune_recent_keys, prune_limit, close_windows}

-- A store takes many flows per call, or one, or there is none.
pub data Store : Type 0 where
  bulk : (List Flow → Option Str) → Store
  single : (Flow → Option Str) → Store
  no_store : Store

pub data Error : Type 0 where
  bulk_failed : ℕ → Str → Error
  flow_failed : Str → Str → Error

abbrev pub store_chunk : ℕ
store_chunk = 500

store_one : Flow → Option Str → Option Error
store_one f none = none
store_one f (some cause) = some (Error.flow_failed f.flow_id cause)

bulk_error : ℕ → Option Str → Option Error
bulk_error n none = none
bulk_error n (some cause) = some (Error.bulk_failed n cause)

-- The first error ends the loop.
store_each : (Flow → Option Str) → List Flow → Option Error
unfolding store_one
store_each write [] = none
store_each write (f ∷ fs) =
    let rest = store_each write fs in elim (store_one f (write f)) [ none ↦ rest | some e ↦ some e ]

unfoldable pub store_flows : Store → List Flow → Option Error
unfolding bulk_error store_each
store_flows (Store.bulk write) fs = bulk_error (length fs) (write fs)
store_flows (Store.single write) fs = store_each write fs
store_flows Store.no_store fs = none

unfoldable pub remember : Time → List Flow → Map Time → Map Time
remember now [] recent = recent
remember now (f ∷ fs) recent = remember now fs (put f.correlation_key now recent)

-- The variables of the loop: `emitted` is what `OnFlow` was called for, in order.
pub record Progress : Type 0 where
  pub recent : Map Time
  pub pending : List Flow
  pub emitted : List Flow
  pub stored : ℕ
  pub failed : Option Error

unfoldable pub emit_done : Time → Progress → Option Error → Progress
emit_done now g (some e) = record g { failed = some e }
emit_done now g none = record {
  recent = prune_recent_keys prune_limit now (remember now g.pending g.recent);
  pending = [];
  emitted = g.emitted ++ g.pending;
  stored = g.stored + length g.pending;
  failed = none;
}

unfoldable pub emit_pending : Store → Time → Progress → List Flow → Progress
emit_pending store now g [] = g
emit_pending store now g (f ∷ fs) = emit_done now g (store_flows store (f ∷ fs))

unfoldable pub emit : Store → Time → Progress → Progress
emit store now g = emit_pending store now g g.pending

unfoldable pub emit_if_full : Store → Time → Progress → Progress
emit_if_full store now g = if leb store_chunk (length g.pending) then emit store now g else g

-- A flow whose key was stored of late is merged with the stored one first.
unfoldable pub push : (Str → Str → Option Flow) → Pipeline → Time → Flow → Progress → Progress
push load p now f g = record g {
  pending = g.pending ++ straggler_merge load (record p { recent_keys = g.recent }) now f ∷ [];
}

unfoldable pub flush_from :
    Store → (Str → Str → Option Flow) → Pipeline → Time → List Flow → Progress → Progress
flush_from store load p now [] g = emit store now g
flush_from store load p now (f ∷ rest) g =
    let next = emit_if_full store now (push load p now f g) in
    elim next.failed [ none ↦ flush_from store load p now rest next | some e ↦ next ]

unfoldable pub start : Map Time → Progress
start recent = record { recent = recent; pending = []; emitted = []; stored = 0; failed = none }

unfoldable pub flush : Store → (Str → Str → Option Flow) → Time → Pipeline → Progress × Pipeline
flush store load now p =
    let (flows, q) = close_windows now p in
    let out = flush_from store load q now flows (start q.recent_keys) in
    (out, record q { recent_keys = out.recent })

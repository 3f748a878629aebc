-- ===== src/Pipeline/Process/Accounts.antt =====
-- What becomes of each record of a batch, and that a batch may come twice.
use siem_v.Prelude.{
  ◌+◌, ◌≡◌, refl, Bool, true, false, not, Option, some, List, [], ◌∷◌, map, keep, All, length,
  Option-cases, inl, inr, arith, if◌then◌else◌,
}
use siem_v.Prelude.Text.{Str, str_eq}
use siem_v.Prelude.Maps.{lookup, lookup-put, lookup-put_self}
use siem_v.Schema.{Event}
use siem_v.Filter.{Set, drops}
use siem_v.Pipeline.{Pipeline, accumulate_new, accumulate}
use siem_v.Pipeline.Process.{
  RawBatch, Parsed, Parser, Sorted, Processed, sort_record, sort_records, accumulate_all,
  process_batch, dead_letter_record,
}

-- The three fates of a record.
abbrev pub is_failure : Parsed → Bool
is_failure (Parsed.failure reason) = true
is_failure (Parsed.event e) = false

abbrev pub is_dropped : Option Set → Parsed → Bool
is_dropped filters (Parsed.failure reason) = false
is_dropped filters (Parsed.event e) = drops filters e.request.host e.request.path

abbrev pub is_kept : Option Set → Parsed → Bool
is_kept filters (Parsed.failure reason) = false
is_kept filters (Parsed.event e) = not (drops filters e.request.host e.request.path)

-- Each list of the result has, in order, the records of one fate, byte for byte.
pub record IsSorted (parse : Str → Parsed) (filters : Option Set) (records : List Str)
    (out : Sorted) : Type 0 where
  pub stored :
      map (λ item. item.payload) out.kept ≡ keep (λ raw. is_kept filters (parse raw)) records
  pub dead : map (λ d. d.payload) out.dead ≡ keep (λ raw. is_failure (parse raw)) records
  pub filtered : out.filtered ≡ length (keep (λ raw. is_dropped filters (parse raw)) records)
  pub paired : length out.events ≡ length out.kept
  pub complete : length out.kept + length out.dead + out.filtered ≡ length records

sort_record-IsSorted :
    (batch : RawBatch) (parser : Parser) (filters : Option Set) (raw : Str) (rest : List Str)
    (o : Parsed) (out : Sorted)
    → parser.parse raw batch.received_at ≡ o
    → IsSorted (λ r. parser.parse r batch.received_at) filters rest out
    → IsSorted
        (λ r. parser.parse r batch.received_at)
        filters
        (raw ∷ rest)
        (sort_record batch parser filters raw o out)
unfolding sort_record dead_letter_record
sort_record-IsSorted batch parser filters raw rest (Parsed.failure reason) out h s = record {
  stored = ground (arith, h, s.stored);
  dead = ground (arith, h, s.dead);
  filtered = ground (arith, h, s.filtered);
  paired = s.paired;
  complete = ground (arith, s.complete);
}
sort_record-IsSorted batch parser filters raw rest (Parsed.event e) out h s = record {
  stored = ground (arith, h, s.stored);
  dead = ground (arith, h, s.dead);
  filtered = ground (arith, h, s.filtered);
  paired = ground (arith, s.paired);
  complete = ground (arith, s.complete);
}

sort_records-IsSorted :
    (batch : RawBatch) (parser : Parser) (filters : Option Set) (records : List Str)
    → IsSorted
        (λ r. parser.parse r batch.received_at)
        filters
        records
        (sort_records batch parser filters records)
unfolding sort_records
sort_records-IsSorted batch parser filters [] = record {
  stored = refl;
  dead = refl;
  filtered = refl;
  paired = refl;
  complete = refl;
}
sort_records-IsSorted batch parser filters (raw ∷ rest) =
    sort_record-IsSorted batch parser filters raw rest (parser.parse raw batch.received_at)
      (sort_records batch parser filters rest) refl
      (sort_records-IsSorted batch parser filters rest)

-- A batch of a provider that has a parser is processed, and each of its records has one fate: the
-- original bytes are dead-lettered if it cannot be parsed, it is counted and not stored if the
-- tenant's filters drop it, and its original bytes are stored otherwise, in the order of the batch.
pub process_batch-IsSorted :
    (mask : Event → Event) (filters : Str → Option Set) (batch : RawBatch) (parser : Parser)
    (p : Pipeline)
    → (out : Processed) × (process_batch mask filters batch (some parser) p ≡ some out)
      × IsSorted
          (λ r. parser.parse r batch.received_at)
          (filters batch.tenant)
          batch.records
          out.sorted
unfolding process_batch
process_batch-IsSorted mask filters batch parser p =
    (_, refl, sort_records-IsSorted batch parser (filters batch.tenant) batch.records)

-- The pipeline has an event under the id.
IsKnown : Pipeline → Str → Type 0
IsKnown p id = (e : Event) × (lookup id p.events ≡ some e)

accumulate-IsKnown : (p : Pipeline) (e : Event) → IsKnown (accumulate p e) e.event_id
unfolding accumulate accumulate_new IsKnown
accumulate-IsKnown p e = elim (Option-cases (lookup e.event_id p.events)) [
  | inl absent ↦ (e, rw absent (lookup-put_self e.event_id e p.events))
  | inr (f, found) ↦ (f, rw (found, found) refl)
]

accumulate-keeps :
    (p : Pipeline) (e : Event) (id : Str) → IsKnown p id → IsKnown (accumulate p e) id
unfolding accumulate accumulate_new IsKnown
accumulate-keeps p e id (f, h) = elim (Option-cases (lookup e.event_id p.events)) [
  | inl absent ↦ (
    if str_eq e.event_id id then e else f,
    rw absent (ground (arith, lookup-put e.event_id id e p.events)),
  )
  | inr (g, found) ↦ (f, rw found h)
]

accumulate_all-keeps :
    (mask : Event → Event) (es : List Event) (p : Pipeline) (id : Str)
    → IsKnown p id
    → IsKnown (accumulate_all mask es p) id
unfolding accumulate_all
accumulate_all-keeps mask [] p id h = h
accumulate_all-keeps mask (e ∷ es) p id h =
    accumulate_all-keeps mask es (accumulate p (mask e)) id (accumulate-keeps p (mask e) id h)

accumulate_all-IsKnown :
    (mask : Event → Event) (es : List Event) (p : Pipeline)
    → All (λ e. IsKnown (accumulate_all mask es p) (mask e).event_id) es
unfolding accumulate_all
accumulate_all-IsKnown mask [] p = tt
accumulate_all-IsKnown mask (e ∷ es) p = (
  accumulate_all-keeps mask es (accumulate p (mask e)) (mask e).event_id
      (accumulate-IsKnown p (mask e)),
  accumulate_all-IsKnown mask es (accumulate p (mask e)),
)

accumulate_known : (p : Pipeline) (e : Event) → IsKnown p e.event_id → accumulate p e ≡ p
unfolding accumulate accumulate_new IsKnown
accumulate_known p e (f, h) = rw h refl

accumulate_all_known :
    (mask : Event → Event) (es : List Event) (p : Pipeline)
    → All (λ e. IsKnown p (mask e).event_id) es
    → accumulate_all mask es p ≡ p
unfolding accumulate_all
accumulate_all_known mask [] p h = refl
accumulate_all_known mask (e ∷ es) p h =
    let same = accumulate_known p (mask e) h.0 in rw same (accumulate_all_known mask es p h.1)

-- A batch that is delivered again, with nothing correlated between, changes the pipeline no more.
pub process_batch_redelivered :
    (mask : Event → Event) (filters : Str → Option Set) (batch : RawBatch) (parser : Parser)
    (p : Pipeline) (once : Processed)
    → process_batch mask filters batch (some parser) p ≡ some once
    → process_batch mask filters batch (some parser) once.pipeline ≡ some once
unfolding process_batch
process_batch_redelivered mask filters batch parser p once h =
    let sorted = sort_records batch parser (filters batch.tenant) batch.records in
    let made : once ≡ record { pipeline = accumulate_all mask sorted.events p; sorted = sorted } =
      cc in
    rw
      (
        made,
        accumulate_all_known mask sorted.events (accumulate_all mask sorted.events p)
            (accumulate_all-IsKnown mask sorted.events p),
      )
      refl

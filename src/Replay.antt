-- ===== src/Replay.antt =====
-- Reprocessing of stored records: backend/internal/ingest/replay.go. The processor is a step on a
-- state of its own; the answers of the replay source are parameters.
pub mod Recovered
use siem_v.Prelude.{
  ℕ, suc, ◌+◌, Bool, true, false, Option, none, some, List, [], ◌∷◌, ◌++◌, length, ltb,
  if◌then◌else◌,
}
use siem_v.Prelude.Text.{Str, str}
use siem_v.Prelude.Time.{Time}
use siem_v.Schema.{Event}
use siem_v.Filter.{Set}
use siem_v.Pipeline.{Pipeline}
use siem_v.Pipeline.Process.{RawBatch, DeadLetterRecord, Parser, Processed, process_batch}

-- What a processor answers, and the state that it leaves.
abbrev pub Processor {ℓ} : Type ℓ → Type ℓ
Processor S = RawBatch → S → Option Str × S

pub data Failure : Type 0 where
  batch_failed record_failed mark_failed : Str → Str → Failure

pub record ReplayResult : Type 0 where
  pub batches_read : ℕ
  pub records_processed : ℕ
  pub dead_letter_recovered : ℕ
  pub failures : List Failure
  pub dry_run : Bool

-- The errors that end a run before it starts.
pub data Refusal : Type 0 where
  empty_range : Refusal
  unreadable : Str → Refusal

pub data Answer {ℓ} (A : Type ℓ) : Type ℓ where
  answered : A → Answer A
  broken : Str → Answer A

unfoldable pub empty_result : Bool → ReplayResult
empty_result dry = record {
  batches_read = 0;
  records_processed = 0;
  dead_letter_recovered = 0;
  failures = [];
  dry_run = dry;
}

unfoldable pub add_failure : Option Str → (Str → Failure) → ReplayResult → ReplayResult
add_failure none f r = r
add_failure (some cause) f r = record r { failures = r.failures ++ f cause ∷ [] }

unfoldable pub count_batch : RawBatch → ReplayResult → ReplayResult
count_batch b r = record r {
  batches_read = suc r.batches_read;
  records_processed = r.records_processed + length b.records;
}

-- The batch that holds one dead letter.
unfoldable pub replay_batch : DeadLetterRecord → RawBatch
replay_batch rec = record {
  batch_id = str "replay:" ++ rec.dl_id;
  source_id = rec.source_id;
  tenant = rec.tenant;
  provider = rec.provider;
  received_at = rec.received_at;
  records = rec.payload ∷ [];
}

-- What follows the processing of a dead letter: a failure, or a mark that may fail in its turn.
unfoldable pub mark_record : Str → Option Str → Option Str → ReplayResult → ReplayResult
mark_record id (some cause) marked r = add_failure (some cause) (record_failed id) r
mark_record id none (some cause) r = add_failure (some cause) (mark_failed id) r
mark_record id none none r = record r { dead_letter_recovered = suc r.dead_letter_recovered }

module _ {ℓ} {S : Type ℓ} (process : Processor S) where
  unfoldable pub replay_one : Bool → RawBatch → ReplayResult × S → ReplayResult × S
  replay_one true b (r, s) = (count_batch b r, s)
  replay_one false b (r, s) =
      let (error, s') = process b s in
      (add_failure error (batch_failed b.batch_id) (count_batch b r), s')

  unfoldable pub replay_batches : Bool → List RawBatch → ReplayResult × S → ReplayResult × S
  replay_batches dry [] acc = acc
  replay_batches dry (b ∷ rest) acc = replay_batches dry rest (replay_one dry b acc)

  unfoldable pub replay_read : Bool → Answer (List RawBatch) → S → Option Refusal × ReplayResult × S
  replay_read dry (broken cause) s = (some (unreadable cause), empty_result dry, s)
  replay_read dry (answered batches) s =
      let (r, s') = replay_batches dry batches (empty_result dry, s) in (none, r, s')

  unfoldable pub replay_range :
      Bool → Answer (List RawBatch) → Time → Time → S → Option Refusal × ReplayResult × S
  replay_range dry batches from to s =
      if ltb from to then replay_read dry batches s else (some empty_range, empty_result dry, s)

  unfoldable pub replay_letter :
      (Str → Option Str) → Bool → DeadLetterRecord → ReplayResult × S → ReplayResult × S
  replay_letter mark true rec (r, s) = (record r { records_processed = suc r.records_processed }, s)
  replay_letter mark false rec (r, s) =
      let (error, s') = process (replay_batch rec) s in
      (
        mark_record rec.dl_id error (mark rec.dl_id)
            (record r { records_processed = suc r.records_processed }),
        s',
      )

  unfoldable pub replay_letters :
      (Str → Option Str) → Bool → List DeadLetterRecord → ReplayResult × S → ReplayResult × S
  replay_letters mark dry [] acc = acc
  replay_letters mark dry (rec ∷ rest) acc =
      replay_letters mark dry rest (replay_letter mark dry rec acc)

  -- An unreadable list of dead letters refuses the run.
  unfoldable pub replay_dead_letters :
      (Str → Option Str)
      → Bool
      → Answer (List DeadLetterRecord)
      → S
      → Option Refusal × ReplayResult × S
  replay_dead_letters mark dry (broken cause) s = (some (unreadable cause), empty_result dry, s)
  replay_dead_letters mark dry (answered records) s =
      let (r, s') = replay_letters mark dry records (empty_result dry, s) in (none, r, s')

-- The pipeline as a processor. A batch is refused only for want of a parser.
unfoldable pub processed : Pipeline → Option Processed → Option Str × Pipeline
processed p none = (some (str "no parser registered for provider"), p)
processed p (some out) = (none, out.pipeline)

unfoldable pub pipeline_processor :
    (Event → Event) → (Str → Option Set) → (Str → Option Parser) → Processor Pipeline
pipeline_processor mask filters parsers b p =
    processed p (process_batch mask filters b (parsers b.provider) p)

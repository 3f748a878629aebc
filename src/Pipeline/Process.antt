-- ===== src/Pipeline/Process.antt =====
-- `ProcessBatch`, `deadLetter` and `hashOf` of backend/internal/biz/flow/pipeline.go. A provider's
-- parser and the masker are parameters; what the method writes and calls is a list of effects. It is
-- the one of a pipeline with a store and a dead-letter store: without one the method skips its
-- writes. The method ignores their errors, so what is kept or dead is what it tries to write.
pub mod Accounts
use siem_v.Prelude.{
  ℕ, zero, suc, ◌+◌, ◌*◌, ◌/◌, ◌%◌, Bool, Option, none, some, List, [], ◌∷◌, ◌++◌, length, ltb,
  if◌then◌else◌,
}
use siem_v.Prelude.Text.{Str, str, str_eq}
use siem_v.Prelude.Time.{Time}
use siem_v.Schema.{Event}
use siem_v.Filter.{Set, drops}
use siem_v.Pipeline.{Pipeline, accumulate}

pub record RawBatch : Type 0 where
  pub batch_id : Str
  pub source_id : Str
  pub tenant : Str
  pub provider : Str
  pub received_at : Time
  pub records : List Str

pub record RawItem : Type 0 where
  pub id : Str
  pub payload : Str

pub record DeadLetterRecord : Type 0 where
  pub dl_id : Str
  pub source_id : Str
  pub tenant : Str
  pub provider : Str
  pub payload : Str
  pub failure_reason : Str
  pub parser_version : Str
  pub received_at : Time
  pub reprocess_state : Str

-- What a parser makes of a record.
pub data Parsed : Type 0 where
  event : Event → Parsed
  failure : Str → Parsed

pub record Parser : Type 0 where
  pub parse : Str → Time → Parsed
  pub version : Str

-- The FNV-1a hash, 64 bits wide.
xor_bits : ℕ → ℕ → ℕ → ℕ
xor_bits zero a b = 0
xor_bits (suc n) a b = (a + b) % 2 + 2 * xor_bits n (a / 2) (b / 2)

unfoldable pub fnv : ℕ → Str → ℕ
unfolding xor_bits
fnv h [] = h
fnv h (c ∷ s) = fnv (xor_bits 64 h c * 1099511628211 % 18446744073709551616) s

hex_digit : ℕ → ℕ
hex_digit d = if ltb d 10 then 48 + d else 87 + d

hex : ℕ → ℕ → Str → Str
unfolding hex_digit
hex zero n acc = acc
hex (suc w) n acc = hex w (n / 16) (hex_digit (n % 16) ∷ acc)

-- "%016x"
unfoldable pub hash_of : Str → Str
unfolding fnv hex
hash_of b = hex 16 (fnv 14695981039346656037 b) []

unfoldable pub dead_letter_record : RawBatch → Str → Str → Str → DeadLetterRecord
dead_letter_record batch raw version reason = record {
  dl_id = str "dl:" ++ hash_of raw;
  source_id = batch.source_id;
  tenant = batch.tenant;
  provider = batch.provider;
  payload = raw;
  failure_reason = reason;
  parser_version = version;
  received_at = batch.received_at;
  reprocess_state = str "pending";
}

-- The variables of the loop over the records.
pub record Sorted : Type 0 where
  pub kept : List RawItem
  pub events : List Event
  pub dead : List DeadLetterRecord
  pub filtered : ℕ

unfoldable pub raw_id_of : RawBatch → Str → Event → Str
raw_id_of batch raw e =
    if str_eq e.raw_id [] then batch.provider ++ b':' ∷ hash_of raw else e.raw_id

-- The loop body, put before what the records behind it come to.
unfoldable pub sort_record : RawBatch → Parser → Option Set → Str → Parsed → Sorted → Sorted
sort_record batch parser filters raw (failure reason) out = record out {
  dead = dead_letter_record batch raw parser.version reason ∷ out.dead;
}
sort_record batch parser filters raw (event e) out =
    if drops filters e.request.host e.request.path
    then record out { filtered = suc out.filtered }
    else record out {
      kept = record { id = raw_id_of batch raw e; payload = raw } ∷ out.kept;
      events = record e { tenant = batch.tenant } ∷ out.events;
    }

unfoldable pub sort_records : RawBatch → Parser → Option Set → List Str → Sorted
sort_records batch parser filters [] = record { kept = []; events = []; dead = []; filtered = 0 }
sort_records batch parser filters (raw ∷ rest) =
    sort_record batch parser filters raw (parser.parse raw batch.received_at)
      (sort_records batch parser filters rest)

unfoldable pub accumulate_all : (Event → Event) → List Event → Pipeline → Pipeline
accumulate_all mask [] p = p
accumulate_all mask (e ∷ rest) p = accumulate_all mask rest (accumulate p (mask e))

-- The state afterwards, with what was stored raw, dead-lettered and filtered.
pub record Processed : Type 0 where
  pub pipeline : Pipeline
  pub sorted : Sorted

-- No parser for the provider: the batch is refused.
unfoldable pub process_batch :
    (Event → Event) → (Str → Option Set) → RawBatch → Option Parser → Pipeline → Option Processed
process_batch mask filters batch none p = none
process_batch mask filters batch (some parser) p =
    let sorted = sort_records batch parser (filters batch.tenant) batch.records in
    some (record { pipeline = accumulate_all mask sorted.events p; sorted = sorted })

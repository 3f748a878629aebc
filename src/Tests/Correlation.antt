-- ===== src/Tests/Correlation.antt =====
-- The theorems on the pipeline and on identifiers, applied to the samples.
use mathlib.Core.List.{map}
use siem_v.Prelude.{
  false, length, ◌*◌, ◌≡◌, ◌≢◌, refl, true, none, some, List, [], ◌∷◌, All, Memᴰ, arith,
  if◌then◌else◌,
}
use siem_v.Prelude.Text.{Str, str, str_eq, str_eq→eq, str_eq_refl}
use siem_v.Prelude.Time.{second, minute}
use siem_v.Prelude.Maps.{lookup}
use siem_v.Schema.{Event}
use siem_v.Keys.{Identifier, to_string, canonical, parse_identifier}
use siem_v.Keys.Canonical.{IsSmallest, canonical-IsSmallest}
use siem_v.Window.{ready, has_event}
use siem_v.Window.Contents.{holds}
use siem_v.Window.Keyed.{IsKeyed}
use siem_v.Flow.{expected_layers}
use siem_v.Pipeline.{Pipeline, new_pipeline, member, parse_all, record_of}
use siem_v.Pipeline.Correlate.{correlate, set_or_empty}
use siem_v.Pipeline.Correlate.Index.{IsConsistent, new_pipeline-IsConsistent}
use siem_v.Pipeline.Correlate.Placed.{IsPlaced}
use siem_v.Pipeline.Correlate.Batch.{
  IsJoined, correlate-IsJoined, correlate-joins, correlate-joins_late,
}
use siem_v.Pipeline.Flush.{close_windows}
use siem_v.Pipeline.Flush.Closing.{IsForgotten, close_windows-IsForgotten}
use siem_v.Pipeline.Flush.Emit.{Store, flush}
use siem_v.Pipeline.Flush.Emit.Complete.{Flushed, keys_of, flush-Flushed}
use siem_v.Pipeline.Restart.{shut_down, start_up}
use siem_v.Pipeline.Restart.Resumes.{IsResumed, start_up-IsResumed}
use siem_v.Pipeline.Process.{RawBatch, Parser, Parsed, Processed, process_batch}
use siem_v.Pipeline.Process.Accounts.{IsSorted, process_batch-IsSorted}
use siem_v.Replay.{answered, pipeline_processor, replay_dead_letters}
use siem_v.Replay.Recovered.{replay_dead_letters_recovered}
use siem_v.Pipeline.Process.{DeadLetterRecord}
use siem_v.Tests.Samples.{edge_event, bot_event, origin_event, sample_window, open_state}

-- Two windows are open, and the edge event that has the identifiers of both is waiting.
abbrev sample_pipeline : Pipeline
sample_pipeline = record {
  window = sample_window;
  expected_layers = expected_layers;
  events = (str "d", bot_event) ∷ (str "o", origin_event) ∷ (str "e", edge_event) ∷ [];
  records = record_of bot_event ∷ record_of origin_event ∷ record_of edge_event ∷ [];
  bridged = [];
  id_index = [];
  key_ids = [];
  recent_keys = [];
}

sample_pipeline-IsConsistent : IsConsistent sample_pipeline
unfolding new_pipeline
sample_pipeline-IsConsistent = record {
  agree = (new_pipeline-IsConsistent sample_window expected_layers).agree;
}

correlate-IsJoined_example :
    IsConsistent (correlate (9 * second) sample_pipeline)
    × ((e : Event) (strs : List Str)
        → IsPlaced sample_pipeline e strs
        → IsPlaced (correlate (9 * second) sample_pipeline) e strs)
    × All
        (IsJoined sample_pipeline.events (correlate (9 * second) sample_pipeline))
        sample_pipeline.records
correlate-IsJoined_example =
    correlate-IsJoined (9 * second) sample_pipeline sample_pipeline-IsConsistent

-- The bot and the origin event are in one window, and the edge event is waiting.
abbrev joined_pipeline : Pipeline
joined_pipeline = record sample_pipeline {
  window = record sample_window {
    states =
        (str "ray:b", open_state (str "ray:b") (bot_event ∷ origin_event ∷ []) (2 * second)) ∷ [];
  };
  records = record_of edge_event ∷ [];
  id_index = (str "ray:b", str "ray:b") ∷ (str "ray:c", str "ray:b") ∷ [];
  key_ids = (str "ray:b", str "ray:b" ∷ str "ray:c" ∷ []) ∷ [];
}

joined_pipeline-IsConsistent : IsConsistent joined_pipeline
unfolding lookup member set_or_empty
joined_pipeline-IsConsistent = record {
  agree = λ s k. ground (arith, str_eq→eq (str "ray:b") k, str_eq_refl (str "ray:b"));
}

bot_event-IsPlaced : IsPlaced joined_pipeline bot_event (str "ray:b" ∷ [])
unfolding lookup has_event str_eq
bot_event-IsPlaced = record { key = str "ray:b"; held = refl; indexed = (refl, tt) }

correlate-joins_late_example :
    (key : Str) × (holds (correlate (9 * second) joined_pipeline).window key bot_event ≡ true)
    × (holds (correlate (9 * second) joined_pipeline).window key edge_event ≡ true)
unfolding record_of parse_all parse_identifier to_string lookup str_eq
correlate-joins_late_example =
    correlate-joins_late (9 * second) joined_pipeline bot_event edge_event (str "ray:b" ∷ [])
      (record_of edge_event) (str "ray:b") joined_pipeline-IsConsistent bot_event-IsPlaced
      (Memᴰ.head refl) refl (Memᴰ.head refl) (Memᴰ.head refl)

correlate-joins_example :
    (key : Str) × (holds (correlate (9 * second) sample_pipeline).window key bot_event ≡ true)
    × (holds (correlate (9 * second) sample_pipeline).window key edge_event ≡ true)
unfolding record_of parse_all parse_identifier to_string lookup str_eq
correlate-joins_example =
    correlate-joins (9 * second) sample_pipeline (record_of bot_event) (record_of edge_event)
      bot_event edge_event (str "ray:b") sample_pipeline-IsConsistent (Memᴰ.head refl)
      (Memᴰ.tail (Memᴰ.tail (Memᴰ.head refl))) refl refl (Memᴰ.head refl) (Memᴰ.head refl)

close_windows-IsForgotten_example :
    IsConsistent (close_windows (20 * minute) sample_pipeline).1
    × All
        (λ st. st.events ≢ [] → IsForgotten (close_windows (20 * minute) sample_pipeline).1 st)
        (ready sample_pipeline.window (20 * minute)).0
close_windows-IsForgotten_example =
    close_windows-IsForgotten (20 * minute) sample_pipeline sample_pipeline-IsConsistent

-- A store that fails, with its error.
abbrev broken_store : Store
broken_store = Store.bulk (λ fs. some (str "timeout"))

flush-Flushed_example :
    Flushed
      (keys_of (close_windows (20 * minute) sample_pipeline).0)
      (flush broken_store (λ tenant id. none) (20 * minute) sample_pipeline).0
flush-Flushed_example = flush-Flushed broken_store (λ tenant id. none) (20 * minute) sample_pipeline

abbrev ray_b : Identifier
ray_b = record { namespace = str "ray"; value = str "b" }

abbrev ray_c : Identifier
ray_c = record { namespace = str "ray"; value = str "c" }

canonical-IsSmallest_example : IsSmallest (str "ray:b") (map to_string (ray_c ∷ ray_b ∷ []))
unfolding canonical to_string
canonical-IsSmallest_example = canonical-IsSmallest (ray_c ∷ ray_b ∷ []) (str "ray:b") refl

-- A parser that knows one record.
abbrev sample_parser : Parser
sample_parser = record {
  parse = λ raw at.
      if str_eq raw (str "edge")
      then Parsed.event edge_event
      else Parsed.failure (str "bad record");
  version = str "1";
}

abbrev sample_batch : RawBatch
sample_batch = record {
  batch_id = str "b1";
  source_id = str "s1";
  tenant = str "t1";
  provider = str "cloudflare";
  received_at = 9 * second;
  records = str "edge" ∷ str "junk" ∷ [];
}

process_batch-IsSorted_example :
    (out : Processed) × (process_batch
        (λ e. e)
        (λ tenant. none)
        sample_batch
        (some sample_parser)
        sample_pipeline
      ≡ some out)
    × IsSorted (λ r. sample_parser.parse r (9 * second)) none sample_batch.records out.sorted
process_batch-IsSorted_example =
    process_batch-IsSorted (λ e. e) (λ tenant. none) sample_batch sample_parser sample_pipeline

-- What the first delivery of the batch leaves.
sample_processed :
    (out : Processed) × (process_batch
        (λ e. e)
        (λ tenant. none)
        sample_batch
        (some sample_parser)
        sample_pipeline
      ≡ some out)
unfolding process_batch
sample_processed = (_, refl)

-- The pipeline with one window, at rest.
abbrev idle_pipeline : Pipeline
idle_pipeline = record joined_pipeline { records = [] }

idle_pipeline-IsKeyed : IsKeyed idle_pipeline.window.states
unfolding lookup str_eq
idle_pipeline-IsKeyed = (refl, refl, refl, tt)

start_up-IsResumed_example :
    IsResumed idle_pipeline
      (start_up (shut_down (9 * second) idle_pipeline) (new_pipeline sample_window expected_layers))
unfolding lookup
start_up-IsResumed_example =
    start_up-IsResumed (9 * second) idle_pipeline sample_window expected_layers refl
      (record { agree = joined_pipeline-IsConsistent.agree }) idle_pipeline-IsKeyed (refl, tt)

-- A dead letter that the sample parser still cannot parse.
abbrev dead_letter : DeadLetterRecord
dead_letter = record {
  dl_id = str "dl:1";
  source_id = str "s1";
  tenant = str "t1";
  provider = str "cloudflare";
  payload = str "junk";
  failure_reason = str "bad record";
  parser_version = str "1";
  received_at = 9 * second;
  reprocess_state = str "pending";
}

replay_dead_letters_recovered_example :
    let out =
      replay_dead_letters
        (pipeline_processor (λ e. e) (λ tenant. none) (λ provider. some sample_parser))
        (λ id. none)
        false
        (answered (dead_letter ∷ []))
        idle_pipeline in
    (out.0 ≡ none)
    × (out.1.dead_letter_recovered ≡ length (dead_letter ∷ []))
    × (out.1.failures ≡ [])
replay_dead_letters_recovered_example =
    replay_dead_letters_recovered (λ e. e) (λ tenant. none) (λ provider. some sample_parser)
      (λ id. none) (dead_letter ∷ []) idle_pipeline (λ id. refl) ((sample_parser, refl), tt)

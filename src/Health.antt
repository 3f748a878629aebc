-- ===== src/Health.antt =====
-- The pipeline's view of its sources and stages: backend/internal/observability/health.go. `F` stands
-- for the floating-point rates, of which the code asks whether they are positive or zero.
pub mod History
pub mod Reports
pub mod Silence
use siem_v.Prelude.{
  ℕ, Bool, true, false, ◌&&◌, Option, none, some, List, [], ◌∷◌, ◌==◌, if◌then◌else◌,
}
use siem_v.Prelude.Text.{Str}
use siem_v.Prelude.Time.{Time, Duration, ℤ, pos, ltb_ℤ, time_sub}
use siem_v.Prelude.Maps.{Map, lookup, put, values}

pub data HealthState : Type 0 where
  healthy silent degraded awaiting : HealthState

pub data StageState : Type 0 where
  healthy_stage zero_output backlogged : StageState

module _ (F : Type 0) where
  pub record SourceHealth : Type 0 where
    pub source_id : Str
    pub provider : Str
    pub state : HealthState
    pub last_record_at : Time
    pub expected_cadence : Duration
    pub records_per_sec : F
    pub parse_fail_rate : F

  pub record StageHealth : Type 0 where
    pub stage : Str
    pub state : StageState
    pub input_rate : F
    pub output_rate : F
    pub backlog_depth : ℤ
    pub latency_p95_ms : F

module _ (F : Type 0) where
  pub record Registry : Type 0 where
    pub sources : Map (SourceHealth F)
    pub stages : Map (StageHealth F)
    pub backlog_threshold : ℤ

abbrev is_zero_output : StageState → Bool
is_zero_output zero_output = true
is_zero_output _ = false

abbrev is_silent : HealthState → Bool
is_silent silent = true
is_silent _ = false

module _ {F : Type 0} where
  unfoldable pub new_registry : Registry F
  new_registry = record { sources = []; stages = []; backlog_threshold = pos 100_000 }

  -- A source that is known keeps its state and the time of its last record.
  unfoldable pub registered_as : F → Str → Str → Duration → Option (SourceHealth F) → SourceHealth F
  registered_as zero_rate id provider cadence (some s) = record s {
    provider = provider;
    expected_cadence = cadence;
  }
  registered_as zero_rate id provider cadence none = record {
    source_id = id;
    provider = provider;
    state = awaiting;
    last_record_at = 0;
    expected_cadence = cadence;
    records_per_sec = zero_rate;
    parse_fail_rate = zero_rate;
  }

  unfoldable pub register_source : F → Str → Str → Duration → Registry F → Registry F
  register_source zero_rate id provider cadence r = record r {
    sources = put id (registered_as zero_rate id provider cadence (lookup id r.sources)) r.sources;
  }

  unfoldable pub delivered_to : Str → ℤ → Time → Option (SourceHealth F) → Registry F → Registry F
  delivered_to id count at none r = r
  delivered_to id count at (some s) r =
      if ltb_ℤ (pos 0) count
      then record r {
        sources = put id (record s { last_record_at = at; state = healthy }) r.sources;
      }
      else r

  unfoldable pub record_delivery : Str → ℤ → Time → Registry F → Registry F
  record_delivery id count at r = delivered_to id count at (lookup id r.sources) r

  unfoldable pub rated_at : Str → F → Option (SourceHealth F) → Registry F → Registry F
  rated_at id rate none r = r
  rated_at id rate (some s) r = record r {
    sources = put id (record s { parse_fail_rate = rate }) r.sources;
  }

  unfoldable pub record_parse_failure_rate : Str → F → Registry F → Registry F
  record_parse_failure_rate id rate r = rated_at id rate (lookup id r.sources) r

  -- Past its cadence, having delivered.
  unfoldable pub is_late : Time → SourceHealth F → Bool
  is_late now s =
      if s.last_record_at == 0
      then false
      else ltb_ℤ (pos 0) s.expected_cadence
        && ltb_ℤ s.expected_cadence (time_sub now s.last_record_at)

  unfoldable pub judged : Time → SourceHealth F → SourceHealth F
  judged now s = record s {
    state = if s.last_record_at == 0 then awaiting else if is_late now s then silent else s.state;
  }

  unfoldable pub evaluate_sources :
      Time → Map (SourceHealth F) → List (SourceHealth F) × Map (SourceHealth F)
  evaluate_sources now [] = ([], [])
  evaluate_sources now ((id, s) ∷ rest) =
      let later = evaluate_sources now rest in
      (if is_late now s then judged now s ∷ later.0 else later.0, (id, judged now s) ∷ later.1)

  unfoldable pub evaluate_silence : Time → Registry F → List (SourceHealth F) × Registry F
  evaluate_silence now r =
      let done = evaluate_sources now r.sources in (done.0, record r { sources = done.1 })

  unfoldable pub zero_among : List (StageHealth F) → List (StageHealth F)
  zero_among [] = []
  zero_among (st ∷ rest) =
      let later = zero_among rest in if is_zero_output st.state then st ∷ later else later

  unfoldable pub zero_output_stages : Registry F → List (StageHealth F)
  zero_output_stages r = zero_among (values r.stages)

  unfoldable pub any_silent : List (SourceHealth F) → HealthState
  any_silent [] = healthy
  any_silent (s ∷ rest) =
      let later = any_silent rest in if is_silent s.state then degraded else later

  unfoldable pub overall_by : List (StageHealth F) → List (SourceHealth F) → HealthState
  overall_by [] sources = any_silent sources
  overall_by (st ∷ rest) sources =
      let later = overall_by rest sources in if is_zero_output st.state then degraded else later

  unfoldable pub overall : Registry F → HealthState
  overall r = overall_by (values r.stages) (values r.sources)

  unfoldable pub all_sources : Registry F → List (SourceHealth F)
  all_sources r = values r.sources

  unfoldable pub all_stages : Registry F → List (StageHealth F)
  all_stages r = values r.stages

module _ {F : Type 0} (is_positive is_zero : F → Bool) where
  unfoldable pub stage_state : F → F → ℤ → ℤ → StageState
  stage_state input output backlog threshold =
      if is_positive input && is_zero output
      then zero_output
      else if ltb_ℤ threshold backlog
      then backlogged
      else healthy_stage

  unfoldable pub update_stage : Str → F → F → ℤ → F → Registry F → Registry F
  update_stage stage input output backlog latency r = record r {
    stages =
        put stage
          (record {
            stage = stage;
            state = stage_state input output backlog r.backlog_threshold;
            input_rate = input;
            output_rate = output;
            backlog_depth = backlog;
            latency_p95_ms = latency;
          })
          r.stages;
  }

-- ===== src/Pipeline/Flush/Made.antt =====
-- Which flows the closing part of `Flush` makes: backend/internal/biz/flow/pipeline.go.
use siem_v.Prelude.{◌≡◌, ◌⊎◌, some, List, [], ◌∷◌, ◌++◌, Permᴰ, if◌then◌else◌}
use siem_v.Prelude.Text.{str, has_prefix}
use siem_v.Prelude.Time.{Time}
use siem_v.Keys.{Tier}
use siem_v.Window.{State}
use siem_v.Flow.{Flow}
use siem_v.Pipeline.{Pipeline}

-- The flow of a window that has closed at `now`.
pub record IsFlowOf (now : Time) (st : State) (f : Flow) : Type 0 where
  pub key : f.correlation_key ≡ st.correlation_key
  pub id : f.flow_id ≡ str "flow:" ++ st.correlation_key
  pub tenant : f.tenant ≡ st.tenant
  pub events : Permᴰ st.events f.events
  pub amended : f.amended ≡ st.amended
  pub closed : f.closed_at ≡ some now
  pub method :
      f.method
      ≡ (if has_prefix st.correlation_key (str "heur:") then Tier.heuristic else Tier.exact)

-- One flow for each window that has events, in the order of the windows, and none for the others.
abbrev pub AreMade : Time → List State → List Flow → Type 0
AreMade now [] flows = flows ≡ []
AreMade now (st ∷ rest) flows =
    ((st.events ≡ []) × AreMade now rest flows)
    ⊎ ((f : Flow) × (later : List Flow) × (flows ≡ f ∷ later)
        × IsFlowOf now st f
        × AreMade now rest later)

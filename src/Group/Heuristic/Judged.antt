-- ===== src/Group/Heuristic/Judged.antt =====
-- What records a heuristic component joins, and which are ambiguous.
use siem_v.Prelude.{
  ◌≤◌, ◌≡◌, refl, true, false, List, [], ◌∷◌, map, Memᴰ, inl, inr, All, All-append, All-map,
  All-perm, All-of_Mem, arith, Bool-cases, length, ltb,
}
use siem_v.Prelude.Text.{Str, str_eq, str_lt}
use siem_v.Prelude.Time.{Duration}
use siem_v.Prelude.Maps.{Map, lookup}
use siem_v.Prelude.Sort.{sort, sort-permᴰ}
use siem_v.Pipeline.{member}
use siem_v.Group.{Component, component_less}
use siem_v.Group.Heuristic.{
  HeuristicRecord, list_or_empty, bucket_all, record_less, cluster_by_time, duplicate_from,
  has_duplicate_provider, event_id_of, build_heuristic_component, judge_cluster, judge_all,
  judge_buckets, keys_of, window_or_default, heuristic_components,
}
use siem_v.Group.Heuristic.Alike.{IsPlain, IsAlike, IsAlike-of_HasKey}
use siem_v.Group.Heuristic.Clusters.{
  IsRun, HasKey, HasKeys, IsGood, bucket_all-keys, cluster_by_time-IsGood,
}

-- No two of the records are of one provider.
abbrev pub IsApart : List HeuristicRecord → Type 0
IsApart [] = Unit
IsApart (r ∷ rest) = All (λ s. str_eq r.provider s.provider ≡ false) rest × IsApart rest

duplicate_from-IsApart :
    (seen : List Str) (l : List HeuristicRecord)
    → duplicate_from seen l ≡ false
    → All (λ s. member s.provider seen ≡ false) l × IsApart l
unfolding duplicate_from member
duplicate_from-IsApart seen [] h = (tt, tt)
duplicate_from-IsApart seen (r ∷ rest) h =
    let later = duplicate_from-IsApart (r.provider ∷ seen) rest (ground arith) in
    (
      (ground arith, All-map _ _ rest (λ s k. ground arith) later.0),
      (All-map _ _ rest (λ s k. ground arith) later.0, later.1),
    )

apart-duplicate_from :
    (seen : List Str) (l : List HeuristicRecord)
    → All (λ s. member s.provider seen ≡ false) l
    → IsApart l
    → duplicate_from seen l ≡ false
unfolding duplicate_from member
apart-duplicate_from seen [] h a = refl
apart-duplicate_from seen (r ∷ rest) h a =
    ground (arith, h.0, apart-duplicate_from (r.provider ∷ seen) rest (both rest h.1 a.0) a.1)
  where
    both :
        (l : List HeuristicRecord)
        → All (λ s. member s.provider seen ≡ false) l
        → All (λ s. str_eq r.provider s.provider ≡ false) l
        → All (λ s. member s.provider (r.provider ∷ seen) ≡ false) l
    both [] h a = tt
    both (s ∷ l) h a = (ground (arith, h.0, a.0), both l h.1 a.1)

duplicate-not-IsApart :
    (cluster : List HeuristicRecord) → has_duplicate_provider cluster ≡ true → IsApart cluster → ⊥
unfolding has_duplicate_provider
duplicate-not-IsApart cluster h a = absurd (
    ground (
      arith,
      h,
      apart-duplicate_from [] cluster (All-of_Mem _ cluster (λ s m. unfold member in refl)) a,
    ))

-- Records of the input that agree in their attributes, in order of time, each within the window of
-- the one before.
pub record IsCluster (records : List HeuristicRecord) (window : Duration)
    (cluster : List HeuristicRecord) : Type 0 where
  pub alike : IsAlike records cluster
  pub run : IsRun window cluster

-- What is claimed of a component, and of an id that is reported as ambiguous.
pub record IsUnambiguous (records : List HeuristicRecord) (window : Duration) (c : Component)
    : Type 0 where
  pub cluster : List HeuristicRecord
  pub joined : IsCluster records window cluster
  pub several : 2 ≤ length cluster
  pub apart : IsApart cluster
  pub events : c.event_ids ≡ sort str_lt (map event_id_of cluster)

pub record IsAmbiguous (records : List HeuristicRecord) (window : Duration) (event_id : Str)
    : Type 0 where
  pub cluster : List HeuristicRecord
  pub joined : IsCluster records window cluster
  pub repeated : IsApart cluster → ⊥
  pub holds : Memᴰ event_id (map event_id_of cluster)

module _ (records : List HeuristicRecord) (window : Duration) where
  abbrev IsJudged : List Component × List Str → Type 0
  IsJudged out = All (IsUnambiguous records window) out.0 × All (IsAmbiguous records window) out.1

  unambiguous :
      (cluster : List HeuristicRecord)
      → IsCluster records window cluster
      → ltb (length cluster) 2 ≡ false
      → has_duplicate_provider cluster ≡ false
      → IsUnambiguous records window (build_heuristic_component cluster)
  unfolding build_heuristic_component has_duplicate_provider
  unambiguous cluster c many apart = record {
    cluster = cluster;
    joined = c;
    several = ground arith;
    apart = (duplicate_from-IsApart [] cluster apart).1;
    events = refl;
  }

  judge_cluster-IsJudged :
      (cluster : List HeuristicRecord) (out : List Component × List Str)
      → IsCluster records window cluster
      → IsJudged out
      → IsJudged (judge_cluster cluster out)
  unfolding judge_cluster
  judge_cluster-IsJudged cluster out c h = elim (Bool-cases (ltb (length cluster) 2)) [
    | inl few ↦ rw few h
    | inr many ↦ elim (Bool-cases (has_duplicate_provider cluster)) [
      | inl repeated ↦
          rw (many, repeated)
            (
              h.0,
              All-append (IsAmbiguous records window) out.1 _ h.1 (
                  All-of_Mem (IsAmbiguous records window) (map event_id_of cluster) (λ id m.
                    record {
                      cluster = cluster;
                      joined = c;
                      repeated = duplicate-not-IsApart cluster repeated;
                      holds = m;
                    })),
            )
      | inr apart ↦
          rw (many, apart)
            (
              All-append (IsUnambiguous records window) out.0 _ h.0
                  (unambiguous cluster c many apart, tt),
              h.1,
            )
    ]
  ]

  judge_all-IsJudged :
      (clusters : List (List HeuristicRecord)) (out : List Component × List Str)
      → All (IsCluster records window) clusters
      → IsJudged out
      → IsJudged (judge_all clusters out)
  unfolding judge_all
  judge_all-IsJudged [] out c h = h
  judge_all-IsJudged (x ∷ clusters) out c h =
      judge_all-IsJudged clusters (judge_cluster x out) c.1 (judge_cluster-IsJudged x out c.0 h)

  judge_buckets-IsJudged :
      (by_key : Map (List HeuristicRecord)) (keys : List Str) (out : List Component × List Str)
      → All IsPlain records
      → HasKeys records by_key
      → IsJudged out
      → IsJudged (judge_buckets window by_key keys out)
  unfolding judge_buckets
  judge_buckets-IsJudged by_key [] out plain k h = h
  judge_buckets-IsJudged by_key (key ∷ keys) out plain k h =
      let bucket = list_or_empty (lookup key by_key) in
      let clusters = cluster_by_time window (sort record_less bucket) in
      let good = cluster_by_time-IsGood window (HasKey records key) bucket (k key) in
      let joined =
        All-map (IsGood window (HasKey records key)) (IsCluster records window) clusters
          (λ c g. record { alike = IsAlike-of_HasKey records key c plain g.1; run = g.0 }) good in
      judge_buckets-IsJudged by_key keys (judge_all clusters out) plain k
        (judge_all-IsJudged clusters out joined h)

-- Where no client, host or method holds the bar that parts the attributes of a key, a component of
-- `Heuristic` joins two records or more of the input that have a client, a host, a path, a method and
-- a time and agree in the first four (the method in upper case), that are in order of time and each
-- within the window of the one before, and that come from different providers; an id reported as
-- ambiguous is that of a record in such a run with two records of one provider.
pub heuristic_components-IsJudged :
    (records : List HeuristicRecord) (window : Duration)
    → All IsPlain records
    → All (IsUnambiguous records (window_or_default window)) (heuristic_components records window).0
      × All (IsAmbiguous records (window_or_default window)) (heuristic_components records window).1
unfolding heuristic_components list_or_empty lookup
heuristic_components-IsJudged records window plain =
    let w = window_or_default window in
    let by_key = bucket_all records [] in
    let keys =
      bucket_all-keys records records [] (All-of_Mem (λ r. Memᴰ r records) records (λ r m. m))
        (λ key. tt) in
    let judged =
      judge_buckets-IsJudged records w by_key (sort str_lt (keys_of by_key)) ([], []) plain keys
        (tt, tt) in
    (
      All-perm (IsUnambiguous records w) (sort-permᴰ component_less _) judged.0,
      All-perm (IsAmbiguous records w) (sort-permᴰ str_lt _) judged.1,
    )

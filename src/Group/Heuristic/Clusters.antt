-- ===== src/Group/Heuristic/Clusters.antt =====
-- The runs of a bucket: neighbours in time, of one key and in order.
use siem_v.Prelude.{
  ◌≤◌, ◌≡◌, refl, sym, subst, false, Option, none, some, List, [], ◌∷◌, ◌++◌, Memᴰ, inl, inr, All,
  All-append, All-perm, arith, Bool-cases,
}
use siem_v.Prelude.Text.{Str, str_eq_refl, Str-cases, str_lt_asymm, str_lt_compare}
use siem_v.Prelude.Time.{Duration, ltb_ℤ, time_sub}
use siem_v.Prelude.Maps.{Map, lookup, lookup-put}
use siem_v.Prelude.Sort.{WeakOrder, IsSorted, sort, sort-permᴰ, sort-IsSorted}
use siem_v.Group.Heuristic.{
  HeuristicRecord, attribute_key, list_or_empty, add_at, bucket_all, record_less, cluster_from,
  cluster_by_time,
}

record_less-WeakOrder : WeakOrder record_less
unfolding record_less
record_less-WeakOrder = record {
  asymm = λ a b h. ground (arith, str_lt_asymm a.event_id b.event_id);
  compare = λ a b c h k. ground (arith, str_lt_compare a.event_id b.event_id c.event_id);
}

-- Neighbours are in order of time, and not further apart than the window.
abbrev IsNear : Duration → HeuristicRecord → HeuristicRecord → Type 0
IsNear window a b =
    (a.event_time ≤ b.event_time) × (ltb_ℤ window (time_sub b.event_time a.event_time) ≡ false)

abbrev pub IsRun : Duration → List HeuristicRecord → Type 0
IsRun window [] = Unit
IsRun window (a ∷ []) = Unit
IsRun window (a ∷ b ∷ rest) = IsNear window a b × IsRun window (b ∷ rest)

abbrev IsAscending : HeuristicRecord → List HeuristicRecord → Type 0
IsAscending last [] = Unit
IsAscending last (r ∷ rest) = (last.event_time ≤ r.event_time) × IsAscending r rest

IsRun-snoc :
    (window : Duration) (before : List HeuristicRecord) (last r : HeuristicRecord)
    → IsRun window (before ++ last ∷ [])
    → IsNear window last r
    → IsRun window ((before ++ last ∷ []) ++ r ∷ [])
IsRun-snoc window [] last r h n = (n, tt)
IsRun-snoc window (a ∷ []) last r h n = (h.0, (n, tt))
IsRun-snoc window (a ∷ b ∷ before) last r h n = (h.0, IsRun-snoc window (b ∷ before) last r h.1 n)

module _ (window : Duration) (P : HeuristicRecord → Type 0) where
  abbrev pub IsGood : List HeuristicRecord → Type 0
  IsGood cluster = IsRun window cluster × All P cluster

  cluster_from-IsGood :
      (out : List (List HeuristicRecord)) (before : List HeuristicRecord) (last : HeuristicRecord)
      (rest : List HeuristicRecord)
      → All IsGood out
      → IsGood (before ++ last ∷ [])
      → IsAscending last rest
      → All P rest
      → All IsGood (cluster_from window out (before ++ last ∷ []) last rest)
  unfolding cluster_from
  cluster_from-IsGood out before last [] o g a p = All-append IsGood out _ o (g, tt)
  cluster_from-IsGood out before last (r ∷ rest) o g a p =
      let fresh =
        cluster_from-IsGood (out ++ (before ++ last ∷ []) ∷ []) [] r rest
          (All-append IsGood out _ o (g, tt)) (tt, (p.0, tt)) a.1 p.1 in
      elim (Bool-cases (ltb_ℤ window (time_sub r.event_time last.event_time))) [
        | inl far ↦ rw far fresh
        | inr near ↦ rw near (
            cluster_from-IsGood out (before ++ last ∷ []) r rest o
              (
                IsRun-snoc window before last r g.0 (a.0, near),
                All-append P (before ++ last ∷ []) (r ∷ []) g.1 (p.0, tt),
              )
              a.1 p.1)
      ]

  IsSorted-IsAscending :
      (r : HeuristicRecord) (rest : List HeuristicRecord)
      → IsSorted record_less (r ∷ rest)
      → IsAscending r rest
  unfolding record_less
  IsSorted-IsAscending r [] s = tt
  IsSorted-IsAscending r (t ∷ rest) s =
      let less = s.0.0 in (ground arith, IsSorted-IsAscending t rest s.1)

  pub cluster_by_time-IsGood :
      (bucket : List HeuristicRecord)
      → All P bucket
      → All IsGood (cluster_by_time window (sort record_less bucket))
  unfolding cluster_by_time
  cluster_by_time-IsGood bucket p =
      go (sort record_less bucket) (sort-IsSorted record_less-WeakOrder bucket)
        (All-perm P (sort-permᴰ record_less bucket) p)
    where
      go :
          (l : List HeuristicRecord)
          → IsSorted record_less l
          → All P l
          → All IsGood (cluster_by_time window l)
      go [] s q = tt
      go (r ∷ rest) s q =
          cluster_from-IsGood [] [] r rest tt (tt, (q.0, tt)) (IsSorted-IsAscending r rest s) q.1

-- A record of the input with the key.
abbrev pub HasKey : List HeuristicRecord → Str → HeuristicRecord → Type 0
HasKey records key r = Memᴰ r records × (attribute_key r ≡ some key)

module _ (all : List HeuristicRecord) where
  abbrev pub HasKeys : Map (List HeuristicRecord) → Type 0
  HasKeys m = (key : Str) → All (HasKey all key) (list_or_empty (lookup key m))

  add_at-keys :
      (r : HeuristicRecord) (o : Option Str) (m : Map (List HeuristicRecord))
      → Memᴰ r all
      → attribute_key r ≡ o
      → HasKeys m
      → HasKeys (add_at r o m)
  unfolding add_at list_or_empty
  add_at-keys r none m a e h key = h key
  add_at-keys r (some k) m a e h key =
      let longer = list_or_empty (lookup k m) ++ r ∷ [] in
      let own =
        All-append (HasKey all k) (list_or_empty (lookup k m)) (r ∷ []) (h k) ((a, e), tt) in
      subst (λ o. All (HasKey all key) (list_or_empty o)) (sym (lookup-put k key longer m))
        (elim (Str-cases k key) [
          | inl same ↦ rw (← same, str_eq_refl) own
          | inr differ ↦ rw differ (h key)
        ])

  pub bucket_all-keys :
      (records : List HeuristicRecord) (m : Map (List HeuristicRecord))
      → All (λ r. Memᴰ r all) records
      → HasKeys m
      → HasKeys (bucket_all records m)
  unfolding bucket_all
  bucket_all-keys [] m a h = h
  bucket_all-keys (r ∷ records) m a h =
      bucket_all-keys records (add_at r (attribute_key r) m) a.1
        (add_at-keys r (attribute_key r) m a.0 refl h)

-- ===== src/Retention/Apply/Counts.antt =====
-- The result of a run counts what the run did.
use siem_v.Prelude.{
  ℕ, suc, ◌+◌, ◌≡◌, refl, Bool, true, false, ◌&&◌, Option, none, some, List, [], ◌∷◌, ◌++◌, arith,
  if◌then◌else◌,
}
use siem_v.Prelude.Text.{Str}
use siem_v.Prelude.Time.{Time}
use siem_v.Retention.{Hold, Policy, Tier, hot, warm, cold, gone, tier_for}
use siem_v.Retention.Apply.{
  Partition, Backend, Effect, Error, Result, audit, held_by, protect, preserve_copy, preserve,
  add_error, archive_step, delete_step, held_step, free_step, partition_step, apply_from,
  apply_with, apply, no_result,
}

-- How many partitions were deleted, by the effects of a run.
abbrev pub count_deleted : List Effect → ℕ
count_deleted [] = 0
count_deleted (Effect.deleted p ∷ rest) = suc (count_deleted rest)
count_deleted (_ ∷ rest) = count_deleted rest

count_deleted-append :
    (xs ys : List Effect) → count_deleted (xs ++ ys) ≡ count_deleted xs + count_deleted ys
count_deleted-append [] ys = omega arith
count_deleted-append (Effect.deleted p ∷ xs) ys = omega (arith, count_deleted-append xs ys)
count_deleted-append (Effect.archived p ref ∷ xs) ys = count_deleted-append xs ys
count_deleted-append (_ ∷ xs) ys = count_deleted-append xs ys

abbrev pub is_gone : Tier → Bool
is_gone gone = true
is_gone _ = false

abbrev pub is_held : Option Hold → Bool
is_held none = false
is_held (some h) = true

module _ (parse : Str → Option Time) (b : Backend) where
  count_deleted-protect :
      (h : Hold) (ref : Str) (now : Time) → count_deleted (protect parse b h ref now).0 ≡ 0
  unfolding protect audit
  count_deleted-protect h ref now = ground arith

  -- What one partition adds to the counts.
  record IsCounted (held gone_now : Bool) (r : Result) (step : List Effect × Result) : Type 0 where
    deleted : step.1.deleted ≡ r.deleted + count_deleted step.0
    prevented :
        step.1.prevented_by_hold
        ≡ (if held && gone_now then r.prevented_by_hold + 1 else r.prevented_by_hold)

  add_error_counts :
      (e : Option Error) (r : Result)
      → ((add_error parse b e r).deleted ≡ r.deleted)
        × ((add_error parse b e r).prevented_by_hold ≡ r.prevented_by_hold)
  unfolding add_error
  add_error_counts none r = (refl, refl)
  add_error_counts (some e) r = (refl, refl)

  count_deleted-preserve_copy :
      (h : Hold) (p : Partition) (now : Time) (o : Option Str)
      → count_deleted (preserve_copy parse b h p now o).0 ≡ 0
  unfolding preserve_copy
  count_deleted-preserve_copy h p now none = refl
  count_deleted-preserve_copy h p now (some ref) = count_deleted-protect h ref now

  held_step-IsCounted :
      (h : Hold) (p : Partition) (now : Time) (tier : Tier) (r : Result)
      → IsCounted true (is_gone tier) r (held_step parse b h p now tier r)
  unfolding held_step preserve
  held_step-IsCounted h p now gone r =
      let copy = preserve_copy parse b h p now (b.archive p) in
      let errors =
        add_error_counts copy.1 (record r { prevented_by_hold = r.prevented_by_hold + 1 }) in
      let quiet = count_deleted-preserve_copy h p now (b.archive p) in
      record { deleted = omega (arith, errors.0, quiet); prevented = errors.1 }
  held_step-IsCounted h p now _ r = record { deleted = omega arith; prevented = refl }

  free_step-IsCounted :
      (tenant_id : Str) (p : Partition) (tier : Tier) (r : Result)
      → IsCounted false (is_gone tier) r (free_step parse b tenant_id p tier r)
  unfolding free_step archive_step delete_step add_error audit
  free_step-IsCounted tenant_id p hot r = ground arith
  free_step-IsCounted tenant_id p warm r = ground arith
  free_step-IsCounted tenant_id p cold r = ground arith
  free_step-IsCounted tenant_id p gone r = ground arith

  partition_step-IsCounted :
      (o : Option Hold) (tenant_id : Str) (p : Partition) (now : Time) (tier : Tier) (r : Result)
      → IsCounted (is_held o) (is_gone tier) r (partition_step parse b o tenant_id p now tier r)
  unfolding partition_step
  partition_step-IsCounted none tenant_id p now tier r = free_step-IsCounted tenant_id p tier r
  partition_step-IsCounted (some h) tenant_id p now tier r = held_step-IsCounted h p now tier r

  -- The partitions whose expiry a hold prevents.
  abbrev pub count_prevented : List Hold → Str → Policy → Time → List Partition → ℕ
  count_prevented holds tenant_id policy now [] = 0
  count_prevented holds tenant_id policy now (p ∷ rest) =
      let more = count_prevented holds tenant_id policy now rest in
      if is_held (held_by parse b holds tenant_id p.date) && is_gone (tier_for policy p.date now)
      then suc more
      else more

  apply_from_counts :
      (holds : List Hold) (tenant_id : Str) (policy : Policy) (now : Time)
      (partitions : List Partition) (r : Result)
      → let run = apply_from parse b holds tenant_id policy now partitions r in
        (run.1.deleted ≡ r.deleted + count_deleted run.0)
        × (run.1.prevented_by_hold
            ≡ r.prevented_by_hold + count_prevented holds tenant_id policy now partitions)
  unfolding apply_from
  apply_from_counts holds tenant_id policy now [] r = (omega arith, omega arith)
  apply_from_counts holds tenant_id policy now (p ∷ rest) r =
      let o = held_by parse b holds tenant_id p.date in
      let tier = tier_for policy p.date now in
      let step = partition_step parse b o tenant_id p now tier r in
      let here = partition_step-IsCounted o tenant_id p now tier r in
      let later = apply_from_counts holds tenant_id policy now rest step.1 in
      let run = apply_from parse b holds tenant_id policy now rest step.1 in
      (
        omega (arith, here.deleted, later.0, count_deleted-append step.0 run.0),
        ground (arith, here.prevented, later.1),
      )

  -- The result of a run that could read its holds counts the deletions among its effects, and the
  -- partitions that are expired and held.
  pub apply_counts :
      (tenant_id : Str) (policy : Policy) (now : Time) (partitions : List Partition)
      (holds : List Hold) (r : Result)
      → b.open_holds tenant_id ≡ some holds
      → (apply parse b tenant_id policy now partitions).1 ≡ some r
      → (r.deleted ≡ count_deleted (apply parse b tenant_id policy now partitions).0)
        × (r.prevented_by_hold ≡ count_prevented holds tenant_id policy now partitions)
  unfolding apply apply_with
  apply_counts tenant_id policy now partitions holds r read done =
      ground (arith, apply_from_counts holds tenant_id policy now partitions no_result)

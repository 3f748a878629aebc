-- ===== src/Retention/Apply/Safety.antt =====
-- A run deletes nothing that a hold covers, and counts what it did.
use siem_v.Prelude.{
  ◌≡◌, refl, false, Option, none, some, List, [], ◌∷◌, All, All-append, Option-cases, ◌⊎◌, inl, inr,
  arith, subst,
}
use siem_v.Prelude.Text.{Str}
use siem_v.Prelude.Time.{Time}
use siem_v.Retention.{Hold, Policy, Tier, cold, gone, covers, tier_for}
use siem_v.Retention.Apply.{
  Partition, Backend, Effect, Result, Target, audit, held_by, protect, preserve_copy, preserve,
  archive_step, delete_step, held_step, free_step, partition_step, apply_from, apply_with, apply,
  no_result,
}

abbrev pub IsFree : (Str → Option Time) → List Hold → Str → Time → Type 0
IsFree parse holds tenant_id date = All (λ h. covers parse h tenant_id date ≡ false) holds

-- Only an expired partition that no hold covers is deleted.
abbrev pub IsSafe : (Str → Option Time) → List Hold → Str → Policy → Time → Effect → Type 0
IsSafe parse holds tenant_id policy now (Effect.deleted p) =
    (tier_for policy p.date now ≡ gone) × IsFree parse holds tenant_id p.date
IsSafe parse holds tenant_id policy now _ = Unit

module _ (parse : Str → Option Time) (b : Backend) where
  held_by-IsFree :
      (holds : List Hold) (tenant_id : Str) (date : Time)
      → held_by parse b holds tenant_id date ≡ none
      → IsFree parse holds tenant_id date
  unfolding held_by
  held_by-IsFree [] tenant_id date h = tt
  held_by-IsFree (k ∷ holds) tenant_id date h =
      (ground arith, held_by-IsFree holds tenant_id date (ground arith))

  module _ (holds : List Hold) (tenant_id : Str) (policy : Policy) (now : Time) where
    abbrev Safe : List Effect → Type 0
    Safe = All (IsSafe parse holds tenant_id policy now)

    audit-Safe :
        (action : Str) (target : Target) (outcome : Str) → Safe (audit b action target outcome)
    unfolding audit
    audit-Safe action target outcome = ground arith

    protect-Safe : (h : Hold) (ref : Str) → Safe (protect parse b h ref now).0
    unfolding protect audit
    protect-Safe h ref = ground arith

    preserve_copy-Safe :
        (h : Hold) (p : Partition) (o : Option Str) → Safe (preserve_copy parse b h p now o).0
    unfolding preserve_copy
    preserve_copy-Safe h p none = tt
    preserve_copy-Safe h p (some ref) = (tt, protect-Safe h ref)

    held_step-Safe :
        (h : Hold) (p : Partition) (tier : Tier) (r : Result)
        → Safe (held_step parse b h p now tier r).0
    unfolding held_step preserve
    held_step-Safe h p gone r = preserve_copy-Safe h p (b.archive p)
    held_step-Safe h p _ r = tt

    archive_step-Safe :
        (p : Partition) (o : Option Str) (r : Result)
        → Safe (archive_step parse b tenant_id p o r).0
    unfolding archive_step
    archive_step-Safe p none r = tt
    archive_step-Safe p (some ref) r = (tt, unfold audit in (ground arith))

    delete_step-Safe :
        (p : Partition) (r : Result)
        → tier_for policy p.date now ≡ gone
        → IsFree parse holds tenant_id p.date
        → Safe (delete_step parse b p r).0
    unfolding delete_step audit
    delete_step-Safe p r expired free = ground arith

    free_step-Safe :
        (p : Partition) (tier : Tier) (r : Result)
        → tier_for policy p.date now ≡ tier
        → IsFree parse holds tenant_id p.date
        → Safe (free_step parse b tenant_id p tier r).0
    unfolding free_step
    free_step-Safe p cold r e free = archive_step-Safe p (b.archive p) r
    free_step-Safe p gone r e free = delete_step-Safe p r e free
    free_step-Safe p _ r e free = tt

    partition_step-Safe :
        (o : Option Hold) (p : Partition) (r : Result)
        → held_by parse b holds tenant_id p.date ≡ o
        → Safe (partition_step parse b o tenant_id p now (tier_for policy p.date now) r).0
    unfolding partition_step
    partition_step-Safe (some h) p r e = held_step-Safe h p (tier_for policy p.date now) r
    partition_step-Safe none p r e =
        free_step-Safe p (tier_for policy p.date now) r refl
          (held_by-IsFree holds tenant_id p.date e)

    apply_from-Safe :
        (partitions : List Partition) (r : Result)
        → Safe (apply_from parse b holds tenant_id policy now partitions r).0
    unfolding apply_from
    apply_from-Safe [] r = tt
    apply_from-Safe (p ∷ rest) r =
        All-append (IsSafe parse holds tenant_id policy now) _ _
          (partition_step-Safe (held_by parse b holds tenant_id p.date) p r refl)
          (apply_from-Safe rest
            (partition_step parse b (held_by parse b holds tenant_id p.date) tenant_id p now
              (tier_for policy p.date now) r).1)

  -- Whatever the stores answer, a run deletes a partition only if its tier is "expired" and no open
  -- hold of the tenant covers it; where the holds cannot be read, it has no effect at all.
  pub apply-IsSafe :
      (tenant_id : Str) (policy : Policy) (now : Time) (partitions : List Partition)
      → ((b.open_holds tenant_id ≡ none) × ((apply parse b tenant_id policy now partitions).0 ≡ []))
        ⊎ ((holds : List Hold) × (b.open_holds tenant_id ≡ some holds)
            × All
                (IsSafe parse holds tenant_id policy now)
                (apply parse b tenant_id policy now partitions).0)
  unfolding apply apply_with
  apply-IsSafe tenant_id policy now partitions = elim (Option-cases (b.open_holds tenant_id)) [
    | inl unread ↦ inl (unread, ground arith)
    | inr (holds, read) ↦
        let run : (apply_from parse b holds tenant_id policy now partitions no_result).0
            ≡ (apply parse b tenant_id policy now partitions).0 =
          ground arith in
        inr (
          holds,
          read,
          subst (All (IsSafe parse holds tenant_id policy now)) run
              (apply_from-Safe holds tenant_id policy now partitions no_result),
        )
  ]

-- ===== src/Retention/Apply.antt =====
-- One retention run: backend/internal/biz/retention/expiry.go. The stores behind the interfaces are
-- the record `Backend` of what each call answers; what a run does to them is the list of effects.
pub mod Safety
pub mod Counts
use siem_v.Prelude.{
  ℕ, zero, suc, ◌+◌, Bool, true, false, Option, none, some, List, [], ◌∷◌, ◌++◌, if◌then◌else◌,
}
use siem_v.Prelude.Text.{Str, str}
use siem_v.Prelude.Time.{Time}
use siem_v.Retention.{Hold, Policy, Tier, hot, warm, cold, gone, covers, tier_for}

pub record Partition : Type 0 where
  pub tenant_id : Str
  pub date : Time
  pub tier : Tier
  pub size_bytes : ℕ

-- `none` and `false` are the calls that return an error.
pub record Backend : Type 0 where
  pub open_holds : Str → Option (List Hold)
  pub archive : Partition → Option Str
  pub preserve : Str → Bool
  pub record_prevented_expiry : Str → Str → Time → Bool
  pub delete : Partition → Bool
  pub has_auditor : Bool

-- What an audit record is about: a reference in the archive, or the day of a partition.
pub data Target : Type 0 where
  reference : Str → Target
  day_of : Time → Target

pub data Effect : Type 0 where
  archived : Partition → Str → Effect
  preserved : Str → Effect
  expiry_prevented : Str → Str → Time → Effect
  deleted : Partition → Effect
  audited : Str → Target → Str → Effect

pub data Error : Type 0 where
  archive_failed preserve_archive_failed delete_failed : Partition → Error
  protection_failed record_failed : Str → Error

pub record Result : Type 0 where
  pub archived : ℕ
  pub deleted : ℕ
  pub prevented_by_hold : ℕ
  pub errors : List Error

abbrev pub no_result : Result
no_result = record { archived = 0; deleted = 0; prevented_by_hold = 0; errors = [] }

unfoldable pub audit : Backend → Str → Target → Str → List Effect
audit b action target outcome = if b.has_auditor then audited action target outcome ∷ [] else []

module _ (parse_rfc3339 : Str → Option Time) (b : Backend) where
  unfoldable pub held_by : List Hold → Str → Time → Option Hold
  held_by [] tenant_id date = none
  held_by (h ∷ holds) tenant_id date =
      if covers parse_rfc3339 h tenant_id date then some h else held_by holds tenant_id date

  -- The steps of `preserve` behind the copy in the archive.
  unfoldable pub protect : Hold → Str → Time → List Effect × Option Error
  protect h ref now =
      if b.preserve ref
      then (if b.record_prevented_expiry h.id ref now
          then (
            preserved ref
                ∷ expiry_prevented h.id ref now
                ∷ audit b (str "retention.expiry_prevented") (reference ref) (str "held"),
            none,
          )
          else (preserved ref ∷ [], some (record_failed ref)))
      else ([], some (protection_failed ref))

  unfoldable pub preserve_copy : Hold → Partition → Time → Option Str → List Effect × Option Error
  preserve_copy h p now none = ([], some (preserve_archive_failed p))
  preserve_copy h p now (some ref) =
      let (effects, error) = protect h ref now in (archived p ref ∷ effects, error)

  unfoldable pub preserve : Hold → Partition → Time → List Effect × Option Error
  preserve h p now = preserve_copy h p now (b.archive p)

  unfoldable pub add_error : Option Error → Result → Result
  add_error none r = r
  add_error (some e) r = record r { errors = r.errors ++ e ∷ [] }

  unfoldable pub archive_step : Str → Partition → Option Str → Result → List Effect × Result
  archive_step tenant_id p none r = ([], add_error (some (archive_failed p)) r)
  archive_step tenant_id p (some ref) r = (
    archived p ref ∷ audit b (str "retention.archive") (reference ref) (str "ok"),
    record r { archived = r.archived + 1 },
  )

  unfoldable pub delete_step : Partition → Result → List Effect × Result
  delete_step p r =
      if b.delete p
      then (
        deleted p ∷ audit b (str "retention.expire") (day_of p.date) (str "ok"),
        record r { deleted = r.deleted + 1 },
      )
      else ([], add_error (some (delete_failed p)) r)

  unfoldable pub held_step : Hold → Partition → Time → Tier → Result → List Effect × Result
  held_step h p now gone r =
      let (effects, error) = preserve h p now in
      (effects, add_error error (record r { prevented_by_hold = r.prevented_by_hold + 1 }))
  held_step h p now _ r = ([], r)

  unfoldable pub free_step : Str → Partition → Tier → Result → List Effect × Result
  free_step tenant_id p cold r = archive_step tenant_id p (b.archive p) r
  free_step tenant_id p gone r = delete_step p r
  free_step tenant_id p _ r = ([], r)

  -- The body of the loop: a held partition is preserved if it would expire; others are archived or
  -- deleted.
  unfoldable pub partition_step :
      Option Hold → Str → Partition → Time → Tier → Result → List Effect × Result
  partition_step (some h) tenant_id p now tier r = held_step h p now tier r
  partition_step none tenant_id p now tier r = free_step tenant_id p tier r

  unfoldable pub apply_from :
      List Hold → Str → Policy → Time → List Partition → Result → List Effect × Result
  apply_from holds tenant_id policy now [] r = ([], r)
  apply_from holds tenant_id policy now (p ∷ rest) r =
      let (effects, r') =
        partition_step (held_by holds tenant_id p.date) tenant_id p now (tier_for policy p.date now)
          r in
      let (later, final) = apply_from holds tenant_id policy now rest r' in
      (effects ++ later, final)

  -- `none` for the result: the holds cannot be read, and nothing is expired.
  unfoldable pub apply_with :
      Option (List Hold) → Str → Policy → Time → List Partition → List Effect × Option Result
  apply_with none tenant_id policy now partitions = ([], none)
  apply_with (some holds) tenant_id policy now partitions =
      let (effects, r) = apply_from holds tenant_id policy now partitions no_result in
      (effects, some r)

  unfoldable pub apply : Str → Policy → Time → List Partition → List Effect × Option Result
  apply tenant_id policy now partitions =
      apply_with (b.open_holds tenant_id) tenant_id policy now partitions

-- ===== src/Pipeline/Correlate/Joins.antt =====
-- Events that share an identifier end up in one window.
use mathlib.Core.List.{map}
use siem_v.Prelude.{◌≡◌, ap, ◌∙◌, true, some, List, [], ◌∷◌, All, All-map, arith}
use siem_v.Prelude.Text.{Str, str_eq_refl}
use siem_v.Prelude.Time.{Time}
use siem_v.Prelude.Maps.{lookup}
use siem_v.Schema.{Event}
use siem_v.Keys.{Identifier, to_string}
use siem_v.Window.Contents.{holds, add-holds}
use siem_v.Pipeline.{Pipeline, member}
use siem_v.Pipeline.Correlate.{
  claim_all, ensure_key, merge_existing, mark_bridged, add_to_window, existing_keys, choose_key,
  open_window, correlate_event,
}
use siem_v.Pipeline.Correlate.Index.{IsConsistent, claim_all-lookup}
use siem_v.Pipeline.Correlate.Placed.{
  IsPlaced, IsSettled, Carries, Carries-trans, ensure_key-IsConsistent, claim_all-window,
}
use siem_v.Pipeline.Correlate.Merging.{
  merge_existing-IsSettled, merge_existing-Carries, existing_keys-IsListed, claim_all-Carries,
}

mark_bridged-Carries :
    (key : Str) (strs existing : List Str) (p : Pipeline)
    → IsConsistent p
    → Carries p (mark_bridged key strs existing p)
unfolding mark_bridged
mark_bridged-Carries key strs existing p c = record {
  consistent = record { agree = c.agree };
  placed = λ f strs place. record { key = place.key; held = place.held; indexed = place.indexed };
}

add_to_window-Carries :
    (key : Str) (e : Event) (now : Time) (p : Pipeline)
    → IsConsistent p
    → Carries p (add_to_window key e now p)
unfolding add_to_window
add_to_window-Carries key e now p c = record {
  consistent = record { agree = c.agree };
  placed = λ f strs place. record {
    key = place.key;
    held = add-holds p.window key e.tenant e now place.key f ∙ rw place.held;
    indexed = place.indexed;
  };
}

ensure_key-Carries : (key : Str) (p : Pipeline) → IsConsistent p → Carries p (ensure_key key p)
unfolding ensure_key
ensure_key-Carries key p c = record {
  consistent = ensure_key-IsConsistent key p c;
  placed = λ f strs place. record { key = place.key; held = place.held; indexed = place.indexed };
}

open_window-Carries :
    (key : Str) (strs existing : List Str) (e : Event) (now : Time) (p : Pipeline)
    → IsConsistent p
    → Carries p (open_window key strs existing e now p)
unfolding open_window
open_window-Carries key strs existing e now p c =
    let merged = merge_existing key existing p in
    let marked = mark_bridged key strs existing merged in
    let added = add_to_window key e now marked in
    let one = merge_existing-Carries key existing p c in
    let two = mark_bridged-Carries key strs existing merged one.consistent in
    let three = add_to_window-Carries key e now marked two.consistent in
    let four = ensure_key-Carries key added three.consistent in
    Carries-trans p merged (ensure_key key added) one (
      Carries-trans merged marked (ensure_key key added) two
        (Carries-trans marked added (ensure_key key added) three four))

open_window-holds :
    (key : Str) (strs existing : List Str) (e : Event) (now : Time) (p : Pipeline)
    → holds (open_window key strs existing e now p).window key e ≡ true
unfolding open_window ensure_key add_to_window
open_window-holds key strs existing e now p =
    let w = (mark_bridged key strs existing (merge_existing key existing p)).window in
    add-holds w key e.tenant e now key e ∙ (ground (arith, str_eq_refl key, str_eq_refl e.event_id))

open_window-IsSettled :
    (key : Str) (strs existing : List Str) (e : Event) (now : Time) (p : Pipeline) (s : Str)
    → IsSettled (merge_existing key existing p) key s
    → IsSettled (open_window key strs existing e now p) key s
unfolding open_window ensure_key add_to_window mark_bridged
open_window-IsSettled key strs existing e now p s h = h

-- Every identifier of a list is found in it.
All-members :
    (P : Str → Type 0) (strs rest : List Str)
    → ((s : Str) → member s strs ≡ true → P s)
    → ((s : Str) → member s rest ≡ true → member s strs ≡ true)
    → All P rest
All-members P strs [] f g = tt
All-members P strs (s ∷ rest) f g = (
  f s (g s (unfold member in (ground (arith, str_eq_refl s)))),
  All-members P strs rest f (λ t h. g t (unfold member in (ground arith))),
)

-- One record: nothing that was placed is lost, and its own event is placed.
pub record Placing (p : Pipeline) (e : Event) (strs : List Str) (q : Pipeline) : Type 0 where
  pub carries : Carries p q
  pub own : IsPlaced q e strs

pub correlate_event-Placing :
    (now : Time) (ids : List Identifier) (e : Event) (p : Pipeline)
    → IsConsistent p
    → Placing p e (map to_string ids) (correlate_event now ids e p)
unfolding correlate_event
correlate_event-Placing now ids e p c =
    let strs = map to_string ids in
    let existing = existing_keys p.id_index strs [] in
    let key = choose_key ids strs existing in
    let opened = open_window key strs existing e now p in
    let first = open_window-Carries key strs existing e now p c in
    let settled =
      All-map _ (IsSettled opened key) strs
        (λ s listed.
          open_window-IsSettled key strs existing e now p s
            (merge_existing-IsSettled ids strs existing p s c listed))
        (existing_keys-IsListed p.id_index strs []) in
    let claimed = claim_all key strs opened in
    let indexed : All (λ s. lookup s claimed.id_index ≡ some key) strs =
      All-members (λ s. lookup s claimed.id_index ≡ some key) strs strs
        (λ s there. claim_all-lookup key strs opened s ∙ rw there) (λ s h. h) in
    record {
      carries =
          Carries-trans p opened claimed first
            (claim_all-Carries key strs opened first.consistent settled);
      own = record {
        key = key;
        held =
            ap (λ w. holds w key e) (claim_all-window key strs opened)
            ∙ open_window-holds key strs existing e now p;
        indexed = indexed;
      };
    }

-- ===== src/Pipeline/Restart/Resumes.antt =====
-- A restart resumes every flow that was in flight, if nothing was waiting to be correlated.
use siem_v.Prelude.{
  ◌≡◌, ◌≢◌, ◌⊎◌, refl, sym, ap, ◌∙◌, Bool, true, false, ◌||◌, none, some, List, [], ◌∷◌, any,
  any-perm, All, All-perm, All-map, Option-cases, inl, inr, arith, if◌then◌else◌,
}
use siem_v.Prelude.Text.{Str, str_eq, str_eq_refl, str_eq→eq, Str-cases}
use siem_v.Prelude.Time.{Time}
use siem_v.Prelude.Sort.{sort-permᴰ}
use siem_v.Prelude.Maps.{Map, lookup, values, lookup-put}
use siem_v.Schema.{Event, Layer}
use siem_v.Window.{State, Window, key_less, snapshot, restore}
use siem_v.Window.Contents.{holds}
use siem_v.Window.Keyed.{IsKeyed, IsKeyed-lookup, IsKeyed-named, IsKeyed-values}
use siem_v.Pipeline.{Pipeline, new_pipeline, member}
use siem_v.Pipeline.Correlate.{ids_of, set_or_empty, correlate, correlate_from}
use siem_v.Pipeline.Correlate.Index.{
  IsConsistent, owns, owns-put, member-set_add, new_pipeline-IsConsistent,
}
use siem_v.Pipeline.Correlate.Placed.{IsPlaced}
use siem_v.Pipeline.Restart.{
  Snapshot, snapshot_window, shut_down, restore_entries, add_all, restore_key_ids,
  restore_identifier_index, restore_all, resume, start_up,
}

-- No key stands twice, as in every Go map.
abbrev pub IsDistinct : Map (List Str) → Type 0
IsDistinct [] = Unit
IsDistinct ((k, v) ∷ m) = (lookup k m ≡ none) × IsDistinct m

restore_entries-lookup {ℓ} :
    {V : Type ℓ} (saved : Map V) (s : Str) → lookup s (restore_entries saved []) ≡ lookup s saved
unfolding restore_entries lookup
restore_entries-lookup [] s = refl
restore_entries-lookup ((k, v) ∷ saved) s =
    lookup-put k s v (restore_entries saved []) ∙ ground (arith, restore_entries-lookup saved s)

member-add_all :
    (t : Str) (ids set : List Str) → member t (add_all ids set) ≡ (member t set || member t ids)
unfolding add_all
member-add_all t [] set = unfold member in (ground arith)
member-add_all t (s ∷ ids) set =
    member-add_all t ids _ ∙ rw (member-set_add t s set) (unfold member in (ground arith))

owns-cons :
    (k j s : Str) (ids : List Str) (m : Map (List Str))
    → owns ((k, ids) ∷ m) j s ≡ (if str_eq k j then member s ids else owns m j s)
unfolding lookup set_or_empty
owns-cons k j s ids m = ground arith

owns_absent : (k s : Str) (m : Map (List Str)) → lookup k m ≡ none → owns m k s ≡ false
unfolding set_or_empty member
owns_absent k s m h = rw h refl

restore_key_ids-owns :
    (saved : Map (List Str)) (k s : Str)
    → IsDistinct saved
    → owns (restore_key_ids saved []) k s ≡ owns saved k s
unfolding restore_key_ids
restore_key_ids-owns [] k s d = refl
restore_key_ids-owns ((j, ids) ∷ saved) k s d =
    let others = restore_key_ids saved [] in
    let before = restore_key_ids-owns saved k s d.1 in
    let none_yet : member s (ids_of others j) ≡ false =
      restore_key_ids-owns saved j s d.1 ∙ owns_absent j s saved d.0 in
    owns-put j k s (add_all ids (ids_of others j)) others
    ∙ rw (member-add_all s ids (ids_of others j), none_yet, before, owns-cons j k s ids saved) refl

-- The list has a state with the key.
abbrev has_key : Str → List State → Bool
has_key k states = any (λ st. str_eq st.correlation_key k) states

-- A state is restored if it is the only one of its key.
restore-lookup :
    (saved : List State) (w : Window) (k : Str) (st : State)
    → str_eq k [] ≡ false
    → All (λ s. s.correlation_key ≡ k → s ≡ st) saved
    → (has_key k saved ≡ true) ⊎ (lookup k w.states ≡ some st)
    → lookup k (restore w saved).states ≡ some st
unfolding restore
restore-lookup [] w k st n only (inl h) = cc
restore-lookup [] w k st n only (inr h) = h
restore-lookup (s ∷ saved) w k st n only there =
    let at : str_eq s.correlation_key k ≡ true → str_eq s.correlation_key [] ≡ str_eq k [] =
      λ h. ap (λ x. str_eq x []) (str_eq→eq s.correlation_key k h) in
    let written = lookup-put s.correlation_key k s w.states in
    restore-lookup saved _ k st n only.1
      (ground (arith, at, written, only.0, str_eq→eq s.correlation_key k, there))

values_of_lookup :
    (m : Map State) (k : Str) (st : State)
    → lookup k m ≡ some st
    → st.correlation_key ≡ k
    → has_key k (values m) ≡ true
unfolding lookup values
values_of_lookup [] k st h own = cc
values_of_lookup ((j, s) ∷ m) k st h own =
    ground (arith, values_of_lookup m k st, str_eq_refl k, ap (λ x. str_eq x k) own)

named_of_lookup :
    (v : Window) (k : Str) (st : State)
    → IsKeyed v.states
    → lookup k v.states ≡ some st
    → str_eq k [] ≡ false
named_of_lookup v k st keyed h = elim (Str-cases k []) [
  | inl same ↦
      let found = ap (λ x. lookup x v.states) same in
      ground (arith, found, IsKeyed-named v.states keyed)
  | inr differ ↦ differ
]

-- Saving and restoring the window of a state that it holds.
restored-lookup :
    (v w : Window) (k : Str) (st : State)
    → IsKeyed v.states
    → lookup k v.states ≡ some st
    → lookup k (restore w (snapshot v)).states ≡ some st
unfolding snapshot
restored-lookup v w k st keyed h =
    restore-lookup (snapshot v) w k st (named_of_lookup v k st keyed h)
      (All-perm (λ s. s.correlation_key ≡ k → s ≡ st) (sort-permᴰ key_less (values v.states))
        (All-map (λ s. lookup s.correlation_key v.states ≡ some s) _ (values v.states)
          (λ s found eq. ground (arith, ap (λ x. lookup x v.states) eq, found, h))
          (IsKeyed-values v.states keyed)))
      (inl (
        sym (any-perm (λ s. str_eq s.correlation_key k) (sort-permᴰ key_less (values v.states)))
        ∙ values_of_lookup v.states k st h (IsKeyed-lookup v.states k st keyed h)))

restored-holds :
    (v w : Window) (k : Str) (e : Event)
    → IsKeyed v.states
    → holds v k e ≡ true
    → holds (restore w (snapshot v)) k e ≡ true
restored-holds v w k e keyed h = elim (Option-cases (lookup k v.states)) [
  | inl absent ↦ ground (arith, absent, h)
  | inr (st, found) ↦ ground (arith, found, restored-lookup v w k st keyed found, h)
]

restore_all-IsConsistent :
    (s : Snapshot) (p : Pipeline) (w : Window) (layers : List Layer)
    → IsConsistent p
    → IsDistinct p.key_ids
    → s.id_index ≡ p.id_index
    → s.key_ids ≡ p.key_ids
    → IsConsistent (restore_all s (new_pipeline w layers))
unfolding restore_all restore_identifier_index new_pipeline
restore_all-IsConsistent s p w layers c d same_index same_ids =
    rw (same_index, same_ids)
      (record {
        agree = λ t k.
            let fact = c.agree t k in
            let to = restore_entries-lookup p.id_index t in
            let by = restore_key_ids-owns p.key_ids k t d in
            (λ h. by ∙ fact.0 (sym to ∙ h), λ h. to ∙ fact.1 (sym by ∙ h));
      })

restore_all-IsPlaced :
    (s : Snapshot) (p : Pipeline) (w : Window) (layers : List Layer) (e : Event) (strs : List Str)
    → IsKeyed p.window.states
    → s.window ≡ snapshot p.window
    → s.id_index ≡ p.id_index
    → IsPlaced p e strs
    → IsPlaced (restore_all s (new_pipeline w layers)) e strs
unfolding restore_all restore_identifier_index new_pipeline
restore_all-IsPlaced s p w layers e strs keyed same_window same_index place = record {
  key = place.key;
  held =
      ap (λ states. holds (restore w states) place.key e) same_window
      ∙ restored-holds p.window w place.key e keyed place.held;
  indexed =
      All-map (λ t. lookup t p.id_index ≡ some place.key) _ strs
        (λ t found.
          ap (λ index. lookup t (restore_entries index [])) same_index
          ∙ restore_entries-lookup p.id_index t
          ∙ found)
        place.indexed;
}

-- An event that is held is in the snapshot, which is not empty then.
held-snapshot :
    (v : Window) (k : Str) (e : Event) → IsKeyed v.states → holds v k e ≡ true → snapshot v ≢ []
held-snapshot v k e keyed h empty =
    let back = restored-holds v (record v { states = [] }) k e keyed h in
    let gone : holds (restore (record v { states = [] }) (snapshot v)) k e ≡ false =
      ap (λ states. holds (restore (record v { states = [] }) states) k e) empty
      ∙ (unfold restore lookup in refl) in
    cc

-- What a restart promises.
pub record IsResumed (p q : Pipeline) : Type 0 where
  pub consistent : IsConsistent q
  pub placed : (e : Event) (strs : List Str) → IsPlaced p e strs → IsPlaced q e strs

resume-IsResumed :
    (states : List State) (recent : Map Time) (s : Snapshot) (p : Pipeline) (w : Window)
    (layers : List Layer)
    → IsConsistent p
    → IsKeyed p.window.states
    → IsDistinct p.key_ids
    → states ≡ snapshot p.window
    → s.window ≡ snapshot p.window
    → s.id_index ≡ p.id_index
    → s.key_ids ≡ p.key_ids
    → IsResumed p (resume states recent s (new_pipeline w layers))
unfolding resume
resume-IsResumed [] [] s p w layers c keyed d empty here index ids = record {
  consistent = new_pipeline-IsConsistent w layers;
  placed = λ e strs place. absurd (held-snapshot p.window place.key e keyed place.held (sym empty));
}
resume-IsResumed [] (r ∷ rs) s p w layers c keyed d empty here index ids = record {
  consistent = restore_all-IsConsistent s p w layers c d index ids;
  placed = λ e strs. restore_all-IsPlaced s p w layers e strs keyed here index;
}
resume-IsResumed (st ∷ states) recent s p w layers c keyed d full here index ids = record {
  consistent = restore_all-IsConsistent s p w layers c d index ids;
  placed = λ e strs. restore_all-IsPlaced s p w layers e strs keyed here index;
}

-- A pipeline that is shut down with no event waiting to be correlated, and started up from the
-- snapshot, has a consistent identifier index, and every event that was in a window is in the window
-- that its identifiers lead to.
pub start_up-IsResumed :
    (now : Time) (p : Pipeline) (w : Window) (layers : List Layer)
    → p.records ≡ []
    → IsConsistent p
    → IsKeyed p.window.states
    → IsDistinct p.key_ids
    → IsResumed p (start_up (shut_down now p) (new_pipeline w layers))
unfolding start_up
start_up-IsResumed now p w layers idle c keyed d =
    let s = shut_down now p in
    let same : s.window ≡ snapshot p.window =
      unfold shut_down snapshot_window correlate correlate_from in
      (ap (λ rs. snapshot (correlate_from now rs p).window) idle) in
    resume-IsResumed s.window s.recent_keys s p w layers c keyed d same same
      (unfold shut_down in refl) (unfold shut_down in refl)

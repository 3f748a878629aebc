-- ===== src/Health/Reports.antt =====
-- The map of sources and what a check for silence reports of it.
use siem_v.Prelude.{
  ◌≡◌, refl, sym, ap, subst, ◌∙◌, Bool, true, false, ◌&&◌, ◌||◌, Option, none, some, List, [], ◌∷◌,
  Bool-cases, inl, inr, arith, if◌then◌else◌,
}
use siem_v.Prelude.Text.{Str, str_eq, str_eq_refl, str_eq→eq}
use siem_v.Prelude.Time.{Time}
use siem_v.Prelude.Maps.{Map, lookup, put, lookup-put}
use siem_v.Health.{SourceHealth, is_late, judged, evaluate_sources}

module _ {F : Type 0} where
  abbrev pub reports : Str → List (SourceHealth F) → Bool
  reports name [] = false
  reports name (s ∷ rest) = str_eq s.source_id name || reports name rest

  abbrev pub IsTidy : Map (SourceHealth F) → Type 0
  IsTidy [] = Unit
  IsTidy ((id, s) ∷ m) = (s.source_id ≡ id) × (lookup id m ≡ none) × IsTidy m

  apart :
      (id j : Str)
      → str_eq j id ≡ false
      → (o : Option (SourceHealth F)) → o ≡ none
      → (s : SourceHealth F) → (if str_eq id j then some s else o) ≡ none
  apart id j d o e s = ground (arith, str_eq→eq id j, str_eq_refl id, d)

  pub IsTidy-put :
      (id : Str) (s : SourceHealth F) (m : Map (SourceHealth F))
      → s.source_id ≡ id
      → IsTidy m
      → IsTidy (put id s m)
  unfolding put lookup
  IsTidy-put id s [] e h = (e, refl, tt)
  IsTidy-put id s ((j, w) ∷ m) e h =
      let rest = IsTidy-put id s m e h.2 in
      elim (Bool-cases (str_eq j id)) [
        | inl same ↦ rw same (e, subst (λ k. lookup k m ≡ none) (str_eq→eq j id same) h.1, h.2)
        | inr differ ↦
            rw differ (h.0, lookup-put id j s m ∙ apart id j differ (lookup j m) h.1 s, rest)
      ]

  pub IsTidy-lookup :
      (id : Str) (m : Map (SourceHealth F)) (s : SourceHealth F)
      → IsTidy m
      → lookup id m ≡ some s
      → s.source_id ≡ id
  unfolding lookup
  IsTidy-lookup id [] s h q = ground arith
  IsTidy-lookup id ((j, w) ∷ m) s h q = elim (Bool-cases (str_eq j id)) [
    | inl same ↦
        let own : some w ≡ some s = ap (λ b. if b then some w else lookup id m) (sym same) ∙ q in
        let here : w ≡ s = ground arith in
        ap (λ x. x.source_id) (sym here) ∙ h.0 ∙ str_eq→eq j id same
    | inr differ ↦
        IsTidy-lookup id m s h.2 (ap (λ b. if b then some w else lookup id m) (sym differ) ∙ q)
  ]

  abbrev pub judged_or : Time → Option (SourceHealth F) → Option (SourceHealth F)
  judged_or now none = none
  judged_or now (some s) = some (judged now s)

  pub evaluate_sources-lookup :
      (now : Time) (id : Str) (m : Map (SourceHealth F))
      → lookup id (evaluate_sources now m).1 ≡ judged_or now (lookup id m)
  unfolding evaluate_sources lookup
  evaluate_sources-lookup now id [] = refl
  evaluate_sources-lookup now id ((j, w) ∷ m) =
      let rest = evaluate_sources-lookup now id m in
      elim (Bool-cases (str_eq j id)) [ inl same ↦ rw same refl | inr differ ↦ rw differ rest ]

  judged-source_id : (now : Time) (s : SourceHealth F) → (judged now s).source_id ≡ s.source_id
  unfolding judged
  judged-source_id now s = refl

  pub IsTidy-evaluate_sources :
      (now : Time) (m : Map (SourceHealth F)) → IsTidy m → IsTidy (evaluate_sources now m).1
  unfolding evaluate_sources
  IsTidy-evaluate_sources now [] h = tt
  IsTidy-evaluate_sources now ((j, w) ∷ m) h = (
    judged-source_id now w ∙ h.0,
    evaluate_sources-lookup now j m ∙ ap (judged_or now) h.1,
    IsTidy-evaluate_sources now m h.2,
  )

  abbrev pub late_at : Time → Option (SourceHealth F) → Bool
  late_at now none = false
  late_at now (some s) = is_late now s

  reports_one :
      (now : Time) (name : Str) (s : SourceHealth F) (rest : List (SourceHealth F)) (late : Bool)
      → is_late now s ≡ late
      → reports name (if late then judged now s ∷ rest else rest)
        ≡ ((late && str_eq s.source_id name) || reports name rest)
  unfolding judged
  reports_one now name s rest true q = refl
  reports_one now name s rest false q = refl

  pub reports-evaluate_sources :
      (now : Time) (name : Str) (m : Map (SourceHealth F))
      → IsTidy m
      → reports name (evaluate_sources now m).0 ≡ late_at now (lookup name m)
  unfolding evaluate_sources lookup
  reports-evaluate_sources now name [] h = refl
  reports-evaluate_sources now name ((j, w) ∷ m) h =
      let rest = reports-evaluate_sources now name m h.2 in
      let one = reports_one now name w (evaluate_sources now m).0 (is_late now w) refl in
      let id : str_eq w.source_id name ≡ str_eq j name = ap (λ k. str_eq k name) h.0 in
      elim (Bool-cases (str_eq j name)) [
        | inl same ↦
            let gone : lookup name m ≡ none =
              subst (λ k. lookup k m ≡ none) (str_eq→eq j name same) h.1 in
            let quiet : reports name (evaluate_sources now m).0 ≡ false =
              rest ∙ ap (late_at now) gone in
            rw same (one ∙ ground (arith, id, same, quiet))
        | inr differ ↦ rw differ (one ∙ ground (arith, id, differ, rest))
      ]

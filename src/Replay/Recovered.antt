-- ===== src/Replay/Recovered.antt =====
-- What a replay of dead letters through the pipeline counts as recovered.
use siem_v.Prelude.{
  suc, ◌+◌, ◌≡◌, refl, ap, ◌∙◌, false, Option, none, some, List, [], ◌∷◌, All, length, arith,
}
use siem_v.Prelude.Text.{Str}
use siem_v.Schema.{Event}
use siem_v.Filter.{Set}
use siem_v.Pipeline.{Pipeline}
use siem_v.Pipeline.Process.{DeadLetterRecord, Parser, process_batch}
use siem_v.Replay.{
  ReplayResult, answered, empty_result, mark_record, replay_batch, replay_letter, replay_letters,
  replay_dead_letters, processed, pipeline_processor,
}

module _ (mask : Event → Event) (filters : Str → Option Set) (parsers : Str → Option Parser) where
  -- Some parser is registered for the provider of the record.
  abbrev pub IsParsed : DeadLetterRecord → Type 0
  IsParsed rec = (parser : Parser) × (parsers rec.provider ≡ some parser)

  accepts :
      (rec : DeadLetterRecord) (p : Pipeline)
      → IsParsed rec
      → (pipeline_processor mask filters parsers (replay_batch rec) p).0 ≡ none
  unfolding pipeline_processor processed process_batch replay_batch
  accepts rec p (parser, h) = rw h refl

  counted : ReplayResult → ReplayResult
  counted r = record r {
    records_processed = suc r.records_processed;
    dead_letter_recovered = suc r.dead_letter_recovered;
  }

  replay_letter_accepted :
      (mark : Str → Option Str) (rec : DeadLetterRecord) (r : ReplayResult) (p : Pipeline)
      → ((id : Str) → mark id ≡ none)
      → IsParsed rec
      → let process = pipeline_processor mask filters parsers in
        replay_letter process mark false rec (r, p) ≡ (counted r, (process (replay_batch rec) p).1)
  unfolding replay_letter mark_record counted
  replay_letter_accepted mark rec r p marks h = rw (accepts rec p h, marks rec.dl_id) refl

  replay_letters_recovered :
      (mark : Str → Option Str) (records : List DeadLetterRecord) (r : ReplayResult) (p : Pipeline)
      → ((id : Str) → mark id ≡ none)
      → All IsParsed records
      → let out =
          replay_letters (pipeline_processor mask filters parsers) mark false records (r, p) in
        (out.0.dead_letter_recovered ≡ r.dead_letter_recovered + length records)
        × (out.0.failures ≡ r.failures)
  unfolding replay_letters counted
  replay_letters_recovered mark [] r p marks h = (omega arith, refl)
  replay_letters_recovered mark (rec ∷ rest) r p marks h =
      let process = pipeline_processor mask filters parsers in
      let step = replay_letter_accepted mark rec r p marks h.0 in
      let (count, failures) =
        replay_letters_recovered mark rest (counted r) (process (replay_batch rec) p).1 marks h.1 in
      (
        ap (λ acc. (replay_letters process mark false rest acc).0.dead_letter_recovered) step
            ∙ omega (arith, count),
        ap (λ acc. (replay_letters process mark false rest acc).0.failures) step ∙ failures,
      )

  -- A replay of dead letters through the pipeline counts every record of a provider with a parser as
  -- recovered, and reports no failure, if all the marks succeed, whether or not the parser can parse
  -- the record.
  pub replay_dead_letters_recovered :
      (mark : Str → Option Str) (records : List DeadLetterRecord) (p : Pipeline)
      → ((id : Str) → mark id ≡ none)
      → All IsParsed records
      → let out =
          replay_dead_letters
            (pipeline_processor mask filters parsers)
            mark
            false
            (answered records)
            p in
        (out.0 ≡ none) × (out.1.dead_letter_recovered ≡ length records) × (out.1.failures ≡ [])
  unfolding replay_dead_letters empty_result
  replay_dead_letters_recovered mark records p marks h =
      let (count, failures) =
        replay_letters_recovered mark records (empty_result false) p marks h in
      (refl, omega (arith, count), failures)

-- ===== src/Bindings/Iterator/Laws.antt =====
-- A loop over an iterator against `ParseX` on each log.
use blockless_avs_tools.Base.{
  ◌≡◌, refl, String, List, [], ◌∷◌, ◌++◌, map, Option, none, some, GoError, ok, err, arith,
  Option-cases, inl, inr,
}
use blockless_avs_tools.Bindings.Iterator.{
  EventType, Iterator, from_logs, from_sub, parse, new_iterator, receive, next_done, next, iterate,
}

-- The events of the logs up to the first that does not parse, and its error, or else `last`.
abbrev pub parse_all :
    {Bound Log E : Type 0}
    → EventType Bound Log E
    → Bound
    → String
    → Option GoError
    → List Log
    → List E × Option GoError
parse_all ty contract event last [] = ([], last)
parse_all ty contract event last (log ∷ later) =
    let rest = parse_all ty contract event last later in
    elim (parse ty contract event log) [ ok e ↦ (e ∷ rest.0, rest.1) | err e ↦ ([], some e) ]

-- An iterator that has neither failed nor ended.
abbrev running : {Bound Feed E : Type 0} → Option E → Bound → String → Feed → Iterator Bound Feed E
running current contract event feed = record (new_iterator contract event feed) {
  event_struct = current;
}

module _ {Bound Feed Log E : Type 0} (ty : EventType Bound Log E) (contract : Bound)
    (event : String) (feed : Feed) where
  iterate-parse_all_from :
      (logs : List Log) (last : Option GoError) (current : Option E)
      → let run =
          iterate ty
            (map from_logs logs ++ (from_sub last ∷ []))
            (running current contract event feed) in
        let parsed = parse_all ty contract event last logs in
        (run.0 ≡ map some parsed.0) × ((run.1).fail ≡ parsed.1)
  unfolding iterate next next_done receive parse
  iterate-parse_all_from [] none current = (refl, refl)
  iterate-parse_all_from [] (some e) current = (refl, refl)
  iterate-parse_all_from (log ∷ logs) last current =
      let unpacked = ty.unpack_log contract event log in
      let later = iterate-parse_all_from logs last (some (ty.set_raw log unpacked.0)) in
      elim (Option-cases (unpacked.1)) [
        | inl fine ↦ ground (arith, later)
        | inr (e, failed) ↦ ground arith
      ]

  -- A loop over a new iterator, whose subscription delivers some logs and then ends, with an error or
  -- without, uses in order the events that ParseX gives, up to the first log that it rejects. Error()
  -- is that log's error, or else the subscription's.
  pub iterate-parse_all :
      (logs : List Log) (last : Option GoError)
      → let run =
          iterate ty
            (map from_logs logs ++ (from_sub last ∷ []))
            (new_iterator contract event feed) in
        let parsed = parse_all ty contract event last logs in
        (run.0 ≡ map some parsed.0) × ((run.1).fail ≡ parsed.1)
  iterate-parse_all logs last = iterate-parse_all_from logs last none

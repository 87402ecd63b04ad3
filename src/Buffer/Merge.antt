-- ===== src/Buffer/Merge.antt =====
-- Backend results entering a composition buffer: `merge_conversion` and `accept_local_candidates`
-- (frontend/src/core/buffer.hpp).
use ime_windows.Prelude.{
  ℕ, Bool, true, false, not, ◌&&◌, ◌||◌, Option, none, some, List, [], ◌∷◌, length, is_empty, set,
  ltb, holds_nat, ◌==◌, if◌then◌else◌,
}
use ime_windows.Bopomofo.Entry.{BopomofoPos}
use ime_windows.Buffer.State.{CompositionBuffer, find}

pub record MergeOutcome : Type 0 where
  pub changed : Bool
  pub held : Option (BopomofoPos × BopomofoPos)

-- The buffer's entries and the outcome so far.
pub record Merging : Type 0 where
  pub buffer : List BopomofoPos
  pub outcome : MergeOutcome

-- The first `continue`: nothing usable came back for this entry.
unfoldable pub is_usable : BopomofoPos → Bool
is_usable output = output.predicted && (output.chosen || not (is_empty output.candidates))

-- The second `continue`, negated: the entry is still the one that was sent.
unfoldable pub still_wanted : ℕ → BopomofoPos → BopomofoPos → Bool
still_wanted sequence requested item =
    (item.version == requested.version) && (not item.chosen && not (ltb sequence item.converted_by))

unfoldable pub converted_entry : ℕ → BopomofoPos → BopomofoPos → BopomofoPos
converted_entry sequence output item = record item {
  candidates = output.candidates;
  choose_index = if output.chosen then output.choose_index else 0;
  chosen = output.chosen;
  conversion_pending = false;
  model_converted = true;
  converted_by = sequence;
}

unfoldable pub merge_found :
    ℕ → Option ℕ → BopomofoPos → BopomofoPos → ℕ → BopomofoPos → Merging → Merging
merge_found sequence locked_id requested output position item s =
    if not (still_wanted sequence requested item)
    then s
    else if holds_nat locked_id item.id
    then record s { outcome = record s.outcome { held = some (requested, output) } }
    else record {
      buffer = set s.buffer position (converted_entry sequence output item);
      outcome = record s.outcome { changed = true };
    }

unfoldable pub merge_one : ℕ → Option ℕ → BopomofoPos → BopomofoPos → Merging → Merging
merge_one sequence locked_id requested output s =
    if not (is_usable output) then s else elim (find requested.id s.buffer) [
      | none ↦ s
      | some (position, item) ↦ merge_found sequence locked_id requested output position item s
    ]

unfoldable pub merge_loop : ℕ → Option ℕ → List BopomofoPos → List BopomofoPos → Merging → Merging
merge_loop sequence locked_id [] converted s = s
merge_loop sequence locked_id (r ∷ rs) [] s = s
merge_loop sequence locked_id (r ∷ rs) (o ∷ os) s =
    merge_loop sequence locked_id rs os (merge_one sequence locked_id r o s)

unfoldable pub nothing_merged : MergeOutcome
nothing_merged = record { changed = false; held = none }

unfoldable pub merge_conversion :
    ℕ
    → List BopomofoPos
    → List BopomofoPos
    → Option ℕ
    → CompositionBuffer
    → CompositionBuffer × MergeOutcome
merge_conversion sequence requested converted locked_id b =
    let start : Merging = record { buffer = b.buffer; outcome = nothing_merged } in
    let done = merge_loop sequence locked_id requested converted start in
    if length requested == length converted
    then (record b { buffer = done.buffer }, done.outcome)
    else (b, nothing_merged)

abbrev pub settle_locally : BopomofoPos → BopomofoPos
settle_locally item = record item { conversion_pending = false }

-- The loop over the entries, with `changed` so far.
unfoldable pub accept_loop : List BopomofoPos → Bool → List BopomofoPos × Bool
accept_loop [] changed = ([], changed)
accept_loop (item ∷ rest) changed =
    let (settled, later) = accept_loop rest (if item.conversion_pending then true else changed) in
    ((if item.conversion_pending then settle_locally item else item) ∷ settled, later)

unfoldable pub accept_local_candidates : CompositionBuffer → CompositionBuffer × Bool
accept_local_candidates b =
    let (items, changed) = accept_loop b.buffer false in (record b { buffer = items }, changed)

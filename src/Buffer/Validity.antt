-- ===== src/Buffer/Validity.antt =====
-- The invariant of a composition buffer, and that the operations of the keys keep it
-- (class CompositionBuffer, frontend/src/core/buffer.hpp).
use ime_windows.Prelude.{
  ℕ, ◌+◌, ◌-◌, ◌<◌, ◌≤◌, ◌≡◌, inl, inr, some, length, get_elem?, All, arith, u64_mod, next64,
  next64-eq, next32, length-insert_at, length-erase_idx, length-set, All-set, All-insert_at,
  All-erase_idx, All-get_elem?, Option-cases, Bool-cases,
}
use ime_windows.Bopomofo.Hanzi.{HanziMapEngine}
use ime_windows.Bopomofo.Entry.{BopomofoPos, fresh, accept, pop_last_bopomofo, set_chosen_candidate}
use ime_windows.Bopomofo.Validity as Entry
use ime_windows.Bopomofo.Identity.{accept-id, set_chosen_candidate-id, pop_last_bopomofo-id}
use ime_windows.Buffer.State.{
  CompositionBuffer, empty_buffer, caret_on_entry, entry_at_caret, edited, insert_after_caret,
  erase_at_caret, current_invalid,
}
use ime_windows.Buffer.Edits.{
  pre, next, remove_last, discard_current_reading, clear, add, add_chosen_candidate, remove_from,
  clamp_caret, add_symbol, drop_invalid, insert_reading,
}
use ime_windows.Buffer.Ids.{
  ids, Distinct, Below, ids-set, Distinct-ids-insert_at, Below-ids-insert_at,
  Distinct-ids-erase_idx, Below-ids-erase_idx,
}

-- The caret stands within the buffer, the entries are well-formed, and their ids are distinct and
-- below the next one.
pub record IsValid (b : CompositionBuffer) : Type 0 where
  pub within : b.caret ≤ length b.buffer
  pub entries : All Entry.IsValid b.buffer
  pub distinct : Distinct (ids b.buffer)
  pub below : Below b.next_id (ids b.buffer)

pub empty_buffer-IsValid : IsValid empty_buffer
unfolding empty_buffer
empty_buffer-IsValid = record { within = omega arith; entries = tt; distinct = tt; below = tt }

-- `buffer[idx]` is an entry of the buffer.
pub entry_at_caret-get_elem? :
    (b : CompositionBuffer) {item : BopomofoPos}
    → entry_at_caret b ≡ some item
    → (get_elem? b.buffer (b.caret - 1) ≡ some item) × (0 < b.caret) × (b.caret ≤ length b.buffer)
unfolding entry_at_caret caret_on_entry
entry_at_caret-get_elem? b h = ground arith

-- Setting the version and the id leaves an entry well-formed.
pub IsValid-tagged :
    (item : BopomofoPos) (key version : ℕ)
    → Entry.IsValid item
    → Entry.IsValid (record item { id = key; version = version })
IsValid-tagged item key version v = ground arith

pub edited-IsValid :
    (i : ℕ) (old item : BopomofoPos) (b : CompositionBuffer)
    → IsValid b
    → get_elem? b.buffer i ≡ some old
    → item.id ≡ old.id
    → Entry.IsValid item
    → IsValid (edited i item b)
unfolding edited
edited-IsValid i old item b v h k vi =
    let same = ids-set b.buffer i old (record item { version = next32 item.version }) h k in
    record {
      within =
          omega (
            arith,
            v.within,
            length-set b.buffer i (record item { version = next32 item.version }),
          );
      entries = All-set Entry.IsValid b.buffer i _ v.entries (IsValid-tagged item item.id _ vi);
      distinct = rw same v.distinct;
      below = rw same v.below;
    }

-- A new entry takes the next id; `n` further ids stay available.
pub insert_after_caret-IsValid :
    (change : BopomofoPos → BopomofoPos) (b : CompositionBuffer)
    → IsValid b
    → b.next_id + 1 < u64_mod
    → ((item : BopomofoPos) → (change item).id ≡ item.id)
    → ((item : BopomofoPos) → Entry.IsValid item → Entry.IsValid (change item))
    → IsValid (insert_after_caret change b)
unfolding insert_after_caret
insert_after_caret-IsValid change b v room same keeps =
    let item = change (record fresh { id = b.next_id }) in
    let named : item.id ≡ b.next_id = same (record fresh { id = b.next_id }) in
    let step : next64 b.next_id ≡ b.next_id + 1 = next64-eq b.next_id room in
    record {
      within = omega (arith, v.within, length-insert_at b.buffer b.caret item);
      entries =
          All-insert_at Entry.IsValid b.buffer b.caret item v.entries
            (keeps _ (IsValid-tagged fresh b.next_id fresh.version Entry.fresh-IsValid));
      distinct = Distinct-ids-insert_at b.buffer b.caret b.next_id item v.distinct v.below named;
      below =
          Below-ids-insert_at b.buffer b.caret b.next_id (next64 b.next_id) item v.below
            (omega (arith, step)) (omega (arith, step, named));
    }

pub erase_at_caret-IsValid :
    (b : CompositionBuffer) → IsValid b → 0 < b.caret → IsValid (erase_at_caret b)
unfolding erase_at_caret
erase_at_caret-IsValid b v h = record {
  within = omega (arith, v.within, length-erase_idx b.buffer (b.caret - 1));
  entries = All-erase_idx Entry.IsValid b.buffer (b.caret - 1) v.entries;
  distinct = Distinct-ids-erase_idx b.buffer (b.caret - 1) v.distinct;
  below = Below-ids-erase_idx b.next_id b.buffer (b.caret - 1) v.below;
}

-- An entry at the caret is well-formed.
pub entry_at_caret-IsValid :
    (b : CompositionBuffer) {item : BopomofoPos}
    → IsValid b
    → entry_at_caret b ≡ some item
    → Entry.IsValid item
entry_at_caret-IsValid b v h =
    let (there, _, _) = entry_at_caret-get_elem? b h in
    All-get_elem? Entry.IsValid b.buffer (b.caret - 1) v.entries there

pub drop_invalid-IsValid : (b : CompositionBuffer) → IsValid b → IsValid (drop_invalid b)
unfolding drop_invalid current_invalid
drop_invalid-IsValid b v = elim (Option-cases (entry_at_caret b)) [
  | inl away ↦ rw (away, drop_invalid, current_invalid) v
  | inr (item, here) ↦
      let (_, inside, _) = entry_at_caret-get_elem? b here in
      ground (arith, erase_at_caret-IsValid b v inside)
]

pub drop_invalid-next_id : (b : CompositionBuffer) → (drop_invalid b).next_id ≡ b.next_id
unfolding drop_invalid erase_at_caret
drop_invalid-next_id b = ground arith

pub insert_reading-IsValid :
    (engine : HanziMapEngine) (ch : ℕ) (b : CompositionBuffer)
    → Entry.HasNoEmptyRow engine
    → IsValid b
    → b.next_id + 1 < u64_mod
    → IsValid (insert_reading engine ch b)
unfolding insert_reading
insert_reading-IsValid engine ch b rows v room =
    insert_after_caret-IsValid (λ item. (accept engine ch item).0) b v room
      (λ item. accept-id engine ch item) (λ item. Entry.accept-IsValid engine ch item rows)

add_symbol-IsValid :
    (engine : HanziMapEngine) (ch : ℕ) (b : CompositionBuffer)
    → Entry.HasNoEmptyRow engine
    → IsValid b
    → b.next_id + 1 < u64_mod
    → IsValid (add_symbol engine ch b)
unfolding add_symbol
add_symbol-IsValid engine ch b rows v room = elim (Option-cases (entry_at_caret b)) [
  | inl away ↦ rw (away, add_symbol) (insert_reading-IsValid engine ch b rows v room)
  | inr (item, here) ↦
      let (there, _, _) = entry_at_caret-get_elem? b here in
      let ok = Entry.accept-IsValid engine ch item rows (entry_at_caret-IsValid b v here) in
      rw (here, add_symbol)
        (ground (
          arith,
          insert_reading-IsValid engine ch b rows v room,
          edited-IsValid (b.caret - 1) item (accept engine ch item).0 b v there
              (accept-id engine ch item) ok,
        ))
]

-- Typing a symbol keeps the invariant, given a table without empty rows and an id left to give.
pub add-IsValid :
    (engine : HanziMapEngine) (ch : ℕ) (b : CompositionBuffer)
    → Entry.HasNoEmptyRow engine
    → IsValid b
    → b.next_id + 1 < u64_mod
    → IsValid (add engine ch b)
unfolding add
add-IsValid engine ch b rows v room =
    add_symbol-IsValid engine ch (drop_invalid b) rows (drop_invalid-IsValid b v)
      (omega (arith, drop_invalid-next_id b))

pub add_chosen_candidate-IsValid :
    (ch : ℕ) (b : CompositionBuffer)
    → IsValid b
    → b.next_id + 1 < u64_mod
    → IsValid (add_chosen_candidate ch b)
unfolding add_chosen_candidate
add_chosen_candidate-IsValid ch b v room =
    insert_after_caret-IsValid (set_chosen_candidate ch) (drop_invalid b) (drop_invalid-IsValid b v)
      (omega (arith, drop_invalid-next_id b)) (λ item. set_chosen_candidate-id ch item)
      (λ item _. Entry.set_chosen_candidate-IsValid ch item)

remove_from-IsValid :
    (item : BopomofoPos) (b : CompositionBuffer)
    → IsValid b
    → entry_at_caret b ≡ some item
    → IsValid (remove_from item b)
unfolding remove_from
remove_from-IsValid item b v here =
    let (there, inside, _) = entry_at_caret-get_elem? b here in
    let ok = entry_at_caret-IsValid b v here in
    let erased = erase_at_caret-IsValid b v inside in
    elim (Bool-cases item.compositable) [
      | inl settled ↦ ground (arith, erased)
      | inr open_reading ↦
          let popped = (pop_last_bopomofo item).0 in
          ground (
            arith,
            erased,
            edited-IsValid (b.caret - 1) item popped b v there (pop_last_bopomofo-id item)
                (Entry.pop_last_bopomofo-IsValid item ok open_reading),
          )
    ]

clamp_caret-IsValid : (b : CompositionBuffer) → IsValid b → IsValid (clamp_caret b)
unfolding clamp_caret
clamp_caret-IsValid b v = ground arith

-- Backspace keeps the invariant.
pub remove_last-IsValid : (b : CompositionBuffer) → IsValid b → IsValid (remove_last b).0
unfolding remove_last
remove_last-IsValid b v = elim (Option-cases (entry_at_caret b)) [
  | inl away ↦ rw (away, remove_last) v
  | inr (item, here) ↦
      rw (here, remove_last) (clamp_caret-IsValid _ (remove_from-IsValid item b v here))
]

pub discard_current_reading-IsValid :
    (b : CompositionBuffer) → IsValid b → IsValid (discard_current_reading b).0
unfolding discard_current_reading
discard_current_reading-IsValid b v = elim (Option-cases (entry_at_caret b)) [
  | inl away ↦ rw (away, discard_current_reading) v
  | inr (item, here) ↦
      let (_, inside, _) = entry_at_caret-get_elem? b here in
      rw (here, discard_current_reading) (ground (arith, erase_at_caret-IsValid b v inside))
]

pub pre-IsValid : (b : CompositionBuffer) → IsValid b → IsValid (pre b).0
unfolding pre
pre-IsValid b v = ground arith

pub next-IsValid : (b : CompositionBuffer) → IsValid b → IsValid (next b).0
unfolding next
next-IsValid b v = ground arith

pub clear-IsValid : (b : CompositionBuffer) → IsValid (clear b)
unfolding clear
clear-IsValid b = record { within = omega arith; entries = tt; distinct = tt; below = tt }

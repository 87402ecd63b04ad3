-- ===== src/Buffer/SelectingValidity.antt =====
-- `select_candidate` and `freeze_readings` keep the invariant of the buffer
-- (frontend/src/core/buffer.hpp).
use ime_windows.Prelude.{
  ℕ, suc, ◌+◌, ◌<◌, ◌≤◌, ◌≡◌, refl, ap, inl, inr, Bool, true, some, List, [], ◌∷◌, ◌++◌, length,
  All, arith, get_elem?, take, drop, Option-cases, Bool-cases, length-append, next64, u64_mod,
  lt-length_of_get_elem?, ◌==◌, All-get_elem?, All-append, All-take, All-drop, length-take,
  length-drop, leb,
}
use ime_windows.Bopomofo.Entry.{
  BopomofoPos, set_choose_index, set_chosen_candidate, displayed, get_candidate_texts,
  multi_reading_literal, to_toneless_bopomofo_string, to_bopomofo_string,
}
use ime_windows.Bopomofo.Validity as Entry
use ime_windows.Bopomofo.Identity.{set_choose_index-id}
use ime_windows.Buffer.State.{CompositionBuffer, find, edited}
use ime_windows.Buffer.Edits.{
  select_candidate, select_found, choose_displayed, replace_by_reading, literal_entries,
  literal_entry, next_id_after,
}
use ime_windows.Buffer.Ids.{
  ids, Distinct, Below, ids-split, ids-append, literal_entries-Consecutive, Distinct-insert,
  Distinct-drop_middle, Below-drop_middle, Below-append, Below-split, Below-mono,
}
use ime_windows.Buffer.Validity.{IsValid, edited-IsValid}
use ime_windows.Buffer.Selecting.{find-get_elem?}

pub literal_entry-IsValid :
    (manual : Bool) (key ch : ℕ) → Entry.IsValid (literal_entry manual key ch)
unfolding literal_entry set_chosen_candidate
literal_entry-IsValid manual key ch = ground arith

pub literal_entries-IsValid :
    (manual : Bool) (key : ℕ) (symbols : List ℕ)
    → All Entry.IsValid (literal_entries manual key symbols)
unfolding literal_entries
literal_entries-IsValid manual key [] = tt
literal_entries-IsValid manual key (ch ∷ rest) =
    (literal_entry-IsValid manual key ch, literal_entries-IsValid manual (next64 key) rest)

pub length-literal_entries :
    (manual : Bool) (key : ℕ) (symbols : List ℕ)
    → length (literal_entries manual key symbols) ≡ length symbols
unfolding literal_entries
length-literal_entries manual key [] = refl
length-literal_entries manual key (ch ∷ rest) =
    ap suc (length-literal_entries manual (next64 key) rest)

-- A reading has four symbols at most.
pub length-to_bopomofo_string-le : (e : BopomofoPos) → length (to_bopomofo_string e) ≤ 4
unfolding to_bopomofo_string to_toneless_bopomofo_string
length-to_bopomofo_string-le e = ground arith

pub length-multi_reading_literal-le :
    (e : BopomofoPos) {reading : List ℕ}
    → multi_reading_literal e ≡ some reading
    → (2 ≤ length reading) × (length reading ≤ 4)
unfolding multi_reading_literal to_toneless_bopomofo_string
length-multi_reading_literal-le e h = ground arith

-- Literals in place of an entry.
module _ (manual : Bool) (symbols : List ℕ) (n : ℕ) (room : n + length symbols < u64_mod) where
  pub Distinct-literals :
      (xs ys : List BopomofoPos)
      → Distinct (ids xs ++ ids ys)
      → Below n (ids xs ++ ids ys)
      → Distinct (ids (xs ++ (literal_entries manual n symbols ++ ys)))
  Distinct-literals xs ys d b =
      let news = literal_entries-Consecutive manual n symbols room in
      rw
        (
          ids-append xs (literal_entries manual n symbols ++ ys),
          ids-append (literal_entries manual n symbols) ys,
        )
        (Distinct-insert (ids xs) (ids (literal_entries manual n symbols)) (ids ys) n d b
          news.distinct news.from)

  pub Below-literals :
      (xs ys : List BopomofoPos)
      → Below n (ids xs ++ ids ys)
      → Below (next_id_after n symbols) (ids (xs ++ (literal_entries manual n symbols ++ ys)))
  Below-literals xs ys b =
      let news = literal_entries-Consecutive manual n symbols room in
      let (bx, by) = Below-split n (ids xs) (ids ys) b in
      let up =
        λ (ks : List ℕ) (h : Below n ks). Below-mono n (n + length symbols) ks (omega arith) h in
      rw
        (
          ids-append xs (literal_entries manual n symbols ++ ys),
          ids-append (literal_entries manual n symbols) ys,
          news.after,
        )
        (Below-append _ (ids xs) _ (up (ids xs) bx) (
          Below-append _ (ids (literal_entries manual n symbols)) (ids ys) news.below
            (up (ids ys) by)))

pub replace_by_reading-IsValid :
    (symbols : List ℕ) (position : ℕ) (b : CompositionBuffer) (item : BopomofoPos)
    → b.next_id + length symbols < u64_mod
    → IsValid b
    → get_elem? b.buffer position ≡ some item
    → 2 ≤ length symbols
    → IsValid (replace_by_reading position symbols b)
unfolding replace_by_reading
replace_by_reading-IsValid symbols position b item room v there two =
    let before = take position b.buffer in
    let after = drop (suc position) b.buffer in
    let news = literal_entries true b.next_id symbols in
    let parts = ids-split b.buffer position item there in
    let d = Distinct-drop_middle (ids before) (ids after) item.id (rw parts at v.distinct) in
    let l = Below-drop_middle b.next_id (ids before) (ids after) item.id (rw parts at v.below) in
    record {
      within = ground (
        arith,
        length-append before (news ++ after),
        length-append news after,
        length-literal_entries true b.next_id symbols,
        length-take position b.buffer,
        length-drop (suc position) b.buffer,
        lt-length_of_get_elem? b.buffer position there,
      );
      entries =
          All-append Entry.IsValid before _ (All-take Entry.IsValid position b.buffer v.entries) (
            All-append Entry.IsValid news _ (literal_entries-IsValid true b.next_id symbols)
              (All-drop Entry.IsValid (suc position) b.buffer v.entries));
      distinct = Distinct-literals true symbols b.next_id room before after d l;
      below = Below-literals true symbols b.next_id room before after l;
    }

choose_displayed-IsValid :
    (position : ℕ) (item : BopomofoPos) (i : ℕ) (b b' : CompositionBuffer) (done : Bool)
    → IsValid b
    → get_elem? b.buffer position ≡ some item
    → choose_displayed position item i b ≡ some (b', done)
    → IsValid b'
unfolding choose_displayed
choose_displayed-IsValid position item i b b' done v there h =
    elim (Option-cases (set_choose_index i item)) [
      | inl thrown ↦ absurd (ground (arith, thrown))
      | inr (item', chosen) ↦
          let same : b' ≡ edited position item' b = ground (arith, chosen) in
          let ok = All-get_elem? Entry.IsValid b.buffer position v.entries there in
          rw same (
            edited-IsValid position item item' b v there (set_choose_index-id i item chosen)
              (Entry.set_choose_index-IsValid i item ok chosen))
    ]

select_found-IsValid :
    (position : ℕ) (item : BopomofoPos) (i : ℕ) (b b' : CompositionBuffer) (done : Bool)
    → IsValid b
    → b.next_id + 4 < u64_mod
    → get_elem? b.buffer position ≡ some item
    → select_found position item i b ≡ some (b', done)
    → IsValid b'
unfolding select_found
select_found-IsValid position item i b b' done v room there h =
    elim (Option-cases (multi_reading_literal item)) [
      | inl plain ↦
          choose_displayed-IsValid position item i b b' done v there (ground (arith, plain))
      | inr (reading, multi) ↦ elim (Bool-cases (i == length (displayed item))) [
        | inl last ↦
            let size = length-multi_reading_literal-le item multi in
            let same : b' ≡ replace_by_reading position reading b = ground (arith, multi, last) in
            rw same (
              replace_by_reading-IsValid reading position b item (omega (arith, size)) v there
                size.0)
        | inr other ↦
            choose_displayed-IsValid position item i b b' done v there
              (ground (arith, multi, other))
      ]
    ]

-- A choice keeps the invariant, if four ids are left to give.
pub select_candidate-IsValid :
    (append16 : ℕ → List ℕ) (key i : ℕ) (b b' : CompositionBuffer) (done : Bool)
    → IsValid b
    → b.next_id + 4 < u64_mod
    → select_candidate append16 key i b ≡ some (b', done)
    → IsValid b'
unfolding select_candidate
select_candidate-IsValid append16 key i b b' done v room h =
    elim (Option-cases (find key b.buffer)) [
      | inl absent ↦ let same : b' ≡ b = ground (arith, absent) in rw same v
      | inr (at, found) ↦ elim (Option-cases (get_candidate_texts append16 at.1)) [
        | inl unsettled ↦ let same : b' ≡ b = ground (arith, found, unsettled) in rw same v
        | inr (texts, offers) ↦ elim (Bool-cases (leb (length texts) i)) [
          | inl past ↦ let same : b' ≡ b = ground (arith, found, offers, past) in rw same v
          | inr inside ↦
              select_found-IsValid at.0 at.1 i b b' done v room
                (find-get_elem? key b.buffer found).0 (ground (arith, found, offers, inside))
        ]
      ]
    ]

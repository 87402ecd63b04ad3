-- ===== src/Buffer/Selecting.antt =====
-- Choosing from the candidate list of an entry (`select_candidate`, frontend/src/core/buffer.hpp).
use ime_windows.Prelude.{
  ℕ, suc, ◌+◌, ◌<◌, ◌≤◌, ◌≡◌, refl, ◌∙◌, inl, inr, true, some, List, [], ◌∷◌, ◌++◌, map, length,
  All, arith, get_elem?, take, drop, Option-cases, Bool-cases, length-append, next64, next32,
  length-map, get_elem?-map, get_elem?-append_left, get_elem?-append_at, get_elem?-some,
  lt-length_of_get_elem?, set-eq-take-drop, ◌==◌, All-get_elem?, ltb,
}
use ime_windows.Bopomofo.Entry.{
  BopomofoPos, current, current32, fix_selected, displayed, get_candidate_texts, reading_text,
  multi_reading_literal,
}
use ime_windows.Bopomofo.Validity as Entry
use ime_windows.Bopomofo.Choosing.{fix_selected-IsPicked, set_choose_index-hit}
use ime_windows.Bopomofo.Symbols.{IsUnit, EncodesUnits, multi_reading_literal-All}
use ime_windows.Buffer.State.{CompositionBuffer, find, find_from, edited}
use ime_windows.Buffer.Text.{concat, final_text}
use ime_windows.Buffer.Edits.{
  select_candidate, select_found, choose_displayed, replace_by_reading, literal_entries,
}
use ime_windows.Buffer.Concat.{concat-append, concat-cons, literal_entries-concat}
use ime_windows.Buffer.Validity.{IsValid}

find_from-at :
    (start key : ℕ) (xs : List BopomofoPos) {position : ℕ} {item : BopomofoPos}
    → find_from start key xs ≡ some (position, item)
    → (j : ℕ) × (position ≡ start + j) × (get_elem? xs j ≡ some item) × (item.id ≡ key)
unfolding find_from
find_from-at start key [] h = cc
find_from-at start key (x ∷ xs) {position} {item} h = elim (Bool-cases (x.id == key)) [
  | inl hit ↦ (0, ground (arith, hit), ground (arith, hit), ground (arith, hit))
  | inr miss ↦
      let later : find_from (suc start) key xs ≡ some (position, item) = ground (arith, miss) in
      let (j, at, there, named) = find_from-at (suc start) key xs later in
      (suc j, omega arith, there, named)
]

-- `find` answers with an entry of the buffer that has the id.
pub find-get_elem? :
    (key : ℕ) (xs : List BopomofoPos) {position : ℕ} {item : BopomofoPos}
    → find key xs ≡ some (position, item)
    → (get_elem? xs position ≡ some item) × (item.id ≡ key)
unfolding find
find-get_elem? key xs {position} h =
    let (j, at, there, named) = find_from-at 0 key xs h in
    let same : position ≡ j = omega arith in (rw same there, named)

retagged-current :
    (append16 : ℕ → List ℕ) (e : BopomofoPos) (version : ℕ) {ch : ℕ}
    → current32 e ≡ some ch
    → current append16 (record e { version = version }) ≡ some (append16 ch)
unfolding current current32
retagged-current append16 e version h = ground arith

-- What the choice at `position` must do to the buffer: the entry's text becomes `text`, and
-- everything else stays.
pub record Replaced (append16 : ℕ → List ℕ) (position : ℕ) (text : List ℕ)
    (b b' : CompositionBuffer) : Type 0 where
  pub reads :
      (before after : List ℕ)
      → concat (current append16) (take position b.buffer) ≡ some before
      → concat (current append16) (drop (suc position) b.buffer) ≡ some after
      → final_text append16 b' ≡ some (before ++ (text ++ after))
  pub revised : b'.revision ≡ next64 b.revision

module _ (append16 : ℕ → List ℕ) (position : ℕ) (item : BopomofoPos) (b : CompositionBuffer)
    (there : get_elem? b.buffer position ≡ some item) where
  edited-Replaced :
      (item' : BopomofoPos) (ch : ℕ)
      → current32 item' ≡ some ch
      → Replaced append16 position (append16 ch) b (edited position item' b)
  unfolding edited final_text
  edited-Replaced item' ch shown = record {
    reads = λ before after hb ha.
        rw
          (set-eq-take-drop b.buffer position (record item' { version = next32 item'.version })
            (lt-length_of_get_elem? b.buffer position there))
          (concat-append (current append16) (take position b.buffer) _ hb (
            concat-cons (current append16) (record item' { version = next32 item'.version }) _
              (retagged-current append16 item' (next32 item'.version) shown) ha));
    revised = refl;
  }

  choose_displayed-Replaced :
      (idx ch : ℕ)
      → item.compositable ≡ true
      → get_elem? (displayed item) idx ≡ some ch
      → (b' : CompositionBuffer) × (choose_displayed position item idx b ≡ some (b', true))
        × Replaced append16 position (append16 ch) b b'
  unfolding choose_displayed
  choose_displayed-Replaced idx ch k hit =
      let picked = fix_selected-IsPicked ch item k in
      (
        edited position (fix_selected ch item) b,
        rw (set_choose_index-hit idx item k hit, choose_displayed),
        edited-Replaced (fix_selected ch item) ch picked.shown,
      )

  replace_by_reading-Replaced :
      (reading : List ℕ)
      → EncodesUnits append16
      → All IsUnit reading
      → Replaced append16 position reading b (replace_by_reading position reading b)
  unfolding replace_by_reading final_text
  replace_by_reading-Replaced reading enc u = record {
    reads = λ before after hb ha. concat-append (current append16) (take position b.buffer) _ hb (
        concat-append (current append16) (literal_entries true b.next_id reading) _
          (literal_entries-concat append16 true b.next_id reading enc u) ha);
    revised = refl;
  }

-- The position `i` of the candidate texts: a displayed character, or the reading behind them.
pub data Offered (append16 : ℕ → List ℕ) (item : BopomofoPos) (i : ℕ) (text : List ℕ) : Type 0 where
  character :
      (ch : ℕ)
      → get_elem? (displayed item) i ≡ some ch
      → text ≡ append16 ch
      → Offered append16 item i text
  reading :
      multi_reading_literal item ≡ some text
      → i ≡ length (displayed item)
      → Offered append16 item i text

module _ (append16 : ℕ → List ℕ) (item : BopomofoPos) (i : ℕ) {text : List ℕ} where
  Offered-before :
      (rest : List (List ℕ))
      → i < length (displayed item)
      → get_elem? (map append16 (displayed item) ++ rest) i ≡ some text
      → Offered append16 item i text
  Offered-before rest h hit =
      let (ch, at) = get_elem?-some (displayed item) i h in
      let mapped = get_elem?-map append16 (displayed item) i at in
      let kept =
        get_elem?-append_left (map append16 (displayed item)) rest i
          (omega (arith, length-map append16 (displayed item))) in
      character ch at (cc (mapped, kept, hit))

  Offered-last :
      (literal : List ℕ)
      → multi_reading_literal item ≡ some literal
      → length (displayed item) ≤ i
      → get_elem? (map append16 (displayed item) ++ literal ∷ []) i ≡ some text
      → Offered append16 item i text
  Offered-last literal multi h hit =
      let mapped = map append16 (displayed item) in
      let at : i ≡ length mapped = omega (
        arith,
        lt-length_of_get_elem? (mapped ++ literal ∷ []) i hit,
        length-append mapped (literal ∷ []),
        length-map append16 (displayed item),
      ) in
      let same : text ≡ literal = ground (arith, get_elem?-append_at mapped [] literal) in
      reading (rw same multi) (omega (arith, at, length-map append16 (displayed item)))

  -- Every text offered is a displayed character or the reading as text.
  pub get_candidate_texts-Offered :
      (texts : List (List ℕ))
      → get_candidate_texts append16 item ≡ some texts
      → get_elem? texts i ≡ some text
      → (item.compositable ≡ true) × Offered append16 item i text
  unfolding get_candidate_texts reading_text
  get_candidate_texts-Offered texts h hit =
      let k : item.compositable ≡ true = ground arith in
      (
        k,
        elim (Option-cases (multi_reading_literal item)) [
          | inl plain ↦
              let whole : get_elem? (map append16 (displayed item) ++ []) i ≡ some text =
                ground (arith, plain) in
              let inside = lt-length_of_get_elem? (map append16 (displayed item) ++ []) i whole in
              Offered-before []
                (omega (
                  arith,
                  inside,
                  length-append (map append16 (displayed item)) [],
                  length-map append16 (displayed item),
                ))
                whole
          | inr (literal, multi) ↦
              let whole : get_elem? (map append16 (displayed item) ++ literal ∷ []) i ≡ some text =
                ground (arith, multi) in
              elim (Bool-cases (ltb i (length (displayed item)))) [
                | inl low ↦ Offered-before (literal ∷ []) (ground (arith, low)) whole
                | inr high ↦ Offered-last literal multi (ground (arith, high)) whole
              ]
        ],
      )

module _ (append16 : ℕ → List ℕ) (key i : ℕ) (b : CompositionBuffer) where
  select_found-inside :
      (position : ℕ) (item : BopomofoPos)
      → i < length (displayed item)
      → select_found position item i b ≡ choose_displayed position item i b
  unfolding select_found
  select_found-inside position item h = ground arith

  select_found-Replaced :
      (position : ℕ) (item : BopomofoPos) (text : List ℕ)
      → get_elem? b.buffer position ≡ some item
      → EncodesUnits append16
      → Entry.IsValid item
      → item.compositable ≡ true
      → Offered append16 item i text
      → (b' : CompositionBuffer) × (select_found position item i b ≡ some (b', true))
        × Replaced append16 position text b b'
  unfolding select_found
  select_found-Replaced position item text there enc v k (character ch at same) =
      let (b', done, replaced) =
        choose_displayed-Replaced append16 position item b there i ch k at in
      let inside = lt-length_of_get_elem? (displayed item) i at in
      (b', select_found-inside position item inside ∙ done, rw same replaced)
  select_found-Replaced position item text there enc v k (reading multi last) = (
    replace_by_reading position text b,
    rw (multi, select_found) (ground (arith, last)),
    replace_by_reading-Replaced append16 position item b there text enc
        (multi_reading_literal-All item v multi),
  )

  -- Choosing a text of the candidate list of an entry succeeds, and replaces the text of that entry by
  -- exactly the text that the list showed, whether a character or a reading; all other text stays, and
  -- the content gets a new revision. The encoder must write symbols as themselves.
  pub select_candidate-Replaced :
      (position : ℕ) (item : BopomofoPos) (texts : List (List ℕ)) (text : List ℕ)
      → EncodesUnits append16
      → IsValid b
      → find key b.buffer ≡ some (position, item)
      → get_candidate_texts append16 item ≡ some texts
      → get_elem? texts i ≡ some text
      → (b' : CompositionBuffer) × (select_candidate append16 key i b ≡ some (b', true))
        × Replaced append16 position text b b'
  unfolding select_candidate
  select_candidate-Replaced position item texts text enc v found offers hit =
      let (there, _) = find-get_elem? key b.buffer found in
      let (k, offered) = get_candidate_texts-Offered append16 item i texts offers hit in
      let inside = lt-length_of_get_elem? texts i hit in
      let ok = All-get_elem? Entry.IsValid b.buffer position v.entries there in
      let (b', done, replaced) = select_found-Replaced position item text there enc ok k offered in
      (b', rw (found, select_candidate, offers) (ground (arith, inside, done)), replaced)

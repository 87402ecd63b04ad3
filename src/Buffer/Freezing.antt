-- ===== src/Buffer/Freezing.antt =====
-- Readings become ordinary text when a composition has to leave its field
-- (`freeze_readings`, frontend/src/core/buffer.hpp).
use ime_windows.Prelude.{
  ℕ, ◌+◌, ◌*◌, ◌<◌, ◌≤◌, ◌≡◌, refl, sym, ◌∙◌, Bool, true, false, not, some, List, [], ◌∷◌, ◌++◌,
  length, All, arith, append_assoc, append-nil, any, if-elim, length-append, next64, u64_mod,
  All-append, if◌then◌else◌,
}
use ime_windows.Bopomofo.Entry.{BopomofoPos, current, to_bopomofo_string, set_chosen_candidate}
use ime_windows.Bopomofo.Validity as Entry
use ime_windows.Bopomofo.Validity.{current-reading}
use ime_windows.Bopomofo.Symbols.{EncodesUnits, to_bopomofo_string-All}
use ime_windows.Buffer.Text.{concat}
use ime_windows.Buffer.Edits.{
  literal_entry, literal_entries, next_id_after, Frozen, advance, freeze_entry, freeze_loop,
}
use ime_windows.Buffer.Concat.{concat-append, literal_entries-concat, both-inv}
use ime_windows.Buffer.Ids.{
  ids, Distinct, Below, ids-append, Distinct-drop_middle, Below-drop_middle,
  literal_entries-Consecutive,
}
use ime_windows.Buffer.SelectingValidity.{
  Distinct-literals, Below-literals, literal_entries-IsValid, length-to_bopomofo_string-le,
}

-- What one round appends to the entries, and the next id after it.
abbrev pub pieces : BopomofoPos → Frozen → List BopomofoPos
pieces item s =
    if item.compositable
    then item ∷ []
    else literal_entries false s.next_id (to_bopomofo_string item)

pub freeze_entry-frozen :
    (caret : ℕ) (item : BopomofoPos) (s : Frozen)
    → (freeze_entry caret item s).frozen ≡ s.frozen ++ pieces item s
unfolding freeze_entry advance
freeze_entry-frozen caret item s = ground arith

-- The state of the loop before the entries `rest`.
pub record IsFreezing (rest : List BopomofoPos) (s : Frozen) : Type 0 where
  pub entries : All Entry.IsValid s.frozen
  pub waiting : All Entry.IsValid rest
  pub distinct : Distinct (ids s.frozen ++ ids rest)
  pub below : Below s.next_id (ids s.frozen ++ ids rest)
  pub within : s.at_caret ≤ length s.frozen
  pub room : s.next_id + 4 * length rest < u64_mod

module _ (item : BopomofoPos) (rest : List BopomofoPos) (s : Frozen)
    (v : IsFreezing (item ∷ rest) s) where
  regroup :
      (xs : List BopomofoPos) → ids (s.frozen ++ (xs ++ rest)) ≡ ids (s.frozen ++ xs) ++ ids rest
  regroup xs = rw (← append_assoc s.frozen xs rest) (ids-append (s.frozen ++ xs) rest)

  fits : s.next_id + length (to_bopomofo_string item) < u64_mod
  fits = omega (arith, v.room, length-to_bopomofo_string-le item)

  dropped_distinct : Distinct (ids s.frozen ++ ids rest)
  dropped_distinct = Distinct-drop_middle (ids s.frozen) (ids rest) item.id v.distinct

  dropped-Below : Below s.next_id (ids s.frozen ++ ids rest)
  dropped-Below = Below-drop_middle s.next_id (ids s.frozen) (ids rest) item.id v.below

  spelled : List BopomofoPos
  spelled = literal_entries false s.next_id (to_bopomofo_string item)

  kept-IsFreezing :
      (caret : ℕ) → IsFreezing rest (advance caret (s.frozen ++ item ∷ []) s.next_id s)
  unfolding advance
  kept-IsFreezing caret = record {
    entries = All-append Entry.IsValid s.frozen (item ∷ []) v.entries (v.waiting.0, tt);
    waiting = v.waiting.1;
    distinct = rw (← regroup (item ∷ []), ids-append s.frozen (item ∷ rest)) v.distinct;
    below = rw (← regroup (item ∷ []), ids-append s.frozen (item ∷ rest)) v.below;
    within = ground (arith, v.within, length-append s.frozen (item ∷ []));
    room = omega (arith, v.room);
  }

  spelled-IsFreezing :
      (caret : ℕ)
      → IsFreezing rest (
          advance caret (s.frozen ++ spelled) (next_id_after s.next_id (to_bopomofo_string item)) s)
  unfolding spelled advance
  spelled-IsFreezing caret =
      let symbols = to_bopomofo_string item in
      let news = literal_entries-Consecutive false s.next_id symbols fits in
      record {
        entries =
            All-append Entry.IsValid s.frozen spelled v.entries
              (literal_entries-IsValid false s.next_id symbols);
        waiting = v.waiting.1;
        distinct = rw (← regroup spelled) (
            Distinct-literals false symbols s.next_id fits s.frozen rest dropped_distinct
              dropped-Below);
        below =
            rw (← regroup spelled)
              (Below-literals false symbols s.next_id fits s.frozen rest dropped-Below);
        within = ground (arith, v.within, length-append s.frozen spelled);
        room = omega (arith, v.room, news.after, length-to_bopomofo_string-le item);
      }

pub freeze_entry-IsFreezing :
    (caret : ℕ) (item : BopomofoPos) (rest : List BopomofoPos) (s : Frozen)
    → IsFreezing (item ∷ rest) s
    → IsFreezing rest (freeze_entry caret item s)
unfolding freeze_entry spelled
freeze_entry-IsFreezing caret item rest s v =
    if-elim (IsFreezing rest) item.compositable (λ _. kept-IsFreezing item rest s v caret)
      (λ _. spelled-IsFreezing item rest s v caret)

pub freeze_loop-IsFreezing :
    (caret : ℕ) (rest : List BopomofoPos) (s : Frozen)
    → IsFreezing rest s
    → IsFreezing [] (freeze_loop caret rest s)
unfolding freeze_loop
freeze_loop-IsFreezing caret [] s v = v
freeze_loop-IsFreezing caret (item ∷ rest) s v =
    freeze_loop-IsFreezing caret rest (freeze_entry caret item s)
      (freeze_entry-IsFreezing caret item rest s v)

-- The result is ordinary text: every entry is settled.
abbrev pub AllSettled : List BopomofoPos → Type 0
AllSettled = All (λ item. item.compositable ≡ true)

literal_entries-AllSettled :
    (manual : Bool) (key : ℕ) (symbols : List ℕ) → AllSettled (literal_entries manual key symbols)
unfolding literal_entries literal_entry set_chosen_candidate
literal_entries-AllSettled manual key [] = tt
literal_entries-AllSettled manual key (ch ∷ rest) =
    (refl, literal_entries-AllSettled manual (next64 key) rest)

pieces-AllSettled : (item : BopomofoPos) (s : Frozen) → AllSettled (pieces item s)
pieces-AllSettled item s =
    if-elim AllSettled item.compositable (λ settled. (settled, tt))
      (λ _. literal_entries-AllSettled false s.next_id (to_bopomofo_string item))

pub freeze_loop-AllSettled :
    (caret : ℕ) (rest : List BopomofoPos) (s : Frozen)
    → AllSettled s.frozen
    → AllSettled (freeze_loop caret rest s).frozen
unfolding freeze_loop
freeze_loop-AllSettled caret [] s h = h
freeze_loop-AllSettled caret (item ∷ rest) s h =
    freeze_loop-AllSettled caret rest (freeze_entry caret item s) (
      rw (freeze_entry-frozen caret item s) (
        All-append (λ x. x.compositable ≡ true) s.frozen (pieces item s) h
          (pieces-AllSettled item s)))

pub settled-none_uncomposed :
    (xs : List BopomofoPos) → AllSettled xs → any (λ item. not item.compositable) xs ≡ false
settled-none_uncomposed [] h = refl
settled-none_uncomposed (x ∷ xs) h = ground (arith, settled-none_uncomposed xs h.1)

module _ (append16 : ℕ → List ℕ) (enc : EncodesUnits append16) where
  pieces-concat :
      (item : BopomofoPos) (s : Frozen) {t : List ℕ}
      → Entry.IsValid item
      → current append16 item ≡ some t
      → concat (current append16) (pieces item s) ≡ some t
  unfolding concat
  pieces-concat item s {t} v h =
      if-elim (λ xs. concat (current append16) xs ≡ some t) item.compositable
        (λ _. rw (h, append-nil))
        (λ typed.
          literal_entries-concat append16 false s.next_id (to_bopomofo_string item) enc
            (to_bopomofo_string-All item v)
          ∙ (sym (current-reading append16 item typed) ∙ h))

  pub freeze_entry-concat :
      (caret : ℕ) (item : BopomofoPos) (s : Frozen) {p t : List ℕ}
      → Entry.IsValid item
      → concat (current append16) s.frozen ≡ some p
      → current append16 item ≡ some t
      → concat (current append16) (freeze_entry caret item s).frozen ≡ some (p ++ t)
  freeze_entry-concat caret item s v h k =
      rw (freeze_entry-frozen caret item s)
        (concat-append (current append16) s.frozen (pieces item s) h (pieces-concat item s v k))

  pub freeze_loop-concat :
      (caret : ℕ) (rest : List BopomofoPos) (s : Frozen) {p q : List ℕ}
      → All Entry.IsValid rest
      → concat (current append16) s.frozen ≡ some p
      → concat (current append16) rest ≡ some q
      → concat (current append16) (freeze_loop caret rest s).frozen ≡ some (p ++ q)
  unfolding freeze_loop concat
  freeze_loop-concat caret [] s {p} {q} v h k = ground (arith, append-nil p)
  freeze_loop-concat caret (item ∷ rest) s {p} {q} v h k =
      let (t, u, ht, hu, eq) =
        both-inv _ (current append16 item) (concat (current append16) rest) k in
      rw (eq, ← append_assoc p t u)
        (freeze_loop-concat caret rest (freeze_entry caret item s) v.1
          (freeze_entry-concat caret item s v.0 h ht) hu)

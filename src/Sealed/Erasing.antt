-- ===== src/Sealed/Erasing.antt =====
-- Backspace over sealed text (frontend/src/core/sealed_text.cpp, class SealedSegment).
use ime_windows.Prelude.{
  ℕ, zero, suc, ◌+◌, ◌-◌, ◌<◌, ◌≤◌, ◌≡◌, refl, ap, ◌∙◌, true, some, List, [], ◌∷◌, ◌++◌, length,
  min, leb, take, if◌then◌else◌, arith, All, All-take, All-get_elem?, append-nil, next64, next64-eq,
  u64_mod, get_elem?,
}
use ime_windows.Bopomofo.Entry.{BopomofoPos, current}
use ime_windows.Bopomofo.Validity as Entry
use ime_windows.Bopomofo.Validity.{current-total}
use ime_windows.Buffer.Text.{concat}
use ime_windows.Buffer.Concat.{concat-total, concat-append}
use ime_windows.Sealed.Units.{drop_last_characters}
use ime_windows.Sealed.Characters.{Character, IsCharacter, encode, drop_last_characters-encode}
use ime_windows.Sealed.Segment.{
  SealedSegment, is_finished, erase_last, erases_before, text, following_context, value_or_empty,
}

abbrev pub entry_count : SealedSegment → ℕ
entry_count s = length s.buffer.buffer

take-suc_snoc {ℓ} :
    {A : Type ℓ} (n : ℕ) (xs : List A)
    → n < length xs
    → (x : A) × (get_elem? xs n ≡ some x) × (take (suc n) xs ≡ take n xs ++ x ∷ [])
take-suc_snoc zero [] h = ground arith
take-suc_snoc zero (x ∷ xs) h = (x, refl, refl)
take-suc_snoc (suc n) [] h = ground arith
take-suc_snoc (suc n) (y ∷ xs) h =
    let (x, found, same) = take-suc_snoc n xs (ground arith) in (x, found, ap (λ t. y ∷ t) same)

nothing_left : (n erased : ℕ) → n ≤ erased → (n - min erased n) ≡ 0
nothing_left n erased h = omega arith

erases_before-beyond :
    (s : SealedSegment) (n : ℕ) → s.erased ≡ entry_count s + n → erases_before s ≡ n
unfolding erases_before
erases_before-beyond s n h = ground arith

left_now : (n erased : ℕ) → erased < n → (n - min erased n) ≡ suc (n - (erased + 1))
left_now n erased h = omega arith

left_later :
    (n erased : ℕ)
    → erased < n
    → erased + 1 < u64_mod
    → (n - min (next64 erased) n) ≡ (n - (erased + 1))
left_later n erased h room = rw (next64-eq erased room) (omega arith)

module _ (append16 : ℕ → List ℕ) where
  pub texts-total :
      (xs : List BopomofoPos)
      → All Entry.IsValid xs
      → All (λ e. (t : List ℕ) × (current append16 e ≡ some t)) xs
  texts-total [] h = tt
  texts-total (x ∷ xs) h = (current-total append16 x h.0, texts-total xs h.1)

  -- The text of a segment with well-formed entries never throws.
  pub text-total :
      (s : SealedSegment)
      → All Entry.IsValid s.buffer.buffer
      → (t : List ℕ) × (text append16 s ≡ some t)
  unfolding text
  text-total s h =
      concat-total (current append16)
        (take (entry_count s - min s.erased (entry_count s)) s.buffer.buffer)
        (texts-total _ (All-take Entry.IsValid _ s.buffer.buffer h))

  concat-single :
      (item : BopomofoPos) {last : List ℕ}
      → current append16 item ≡ some last
      → concat (current append16) (item ∷ []) ≡ some last
  unfolding concat
  concat-single item {last} h = rw (h, append-nil last)

  -- Backspace inside a segment takes the text of its last entry that was not erased, and nothing
  -- before the segment; it is finished when that was the first entry.
  pub erase_last-inside :
      (s : SealedSegment)
      → All Entry.IsValid s.buffer.buffer
      → s.erased < entry_count s
      → s.erased + 1 < u64_mod
      → (kept : List ℕ) × (last : List ℕ) × (text append16 s ≡ some (kept ++ last))
        × (text append16 (erase_last s) ≡ some kept)
        × (erases_before (erase_last s) ≡ 0)
        × (is_finished (erase_last s)
            ≡ (if leb (entry_count s) (s.erased + 1) then true else is_finished s))
  unfolding text erase_last erases_before
  erase_last-inside s h inside room =
      let entries = s.buffer.buffer in
      let n = entry_count s - (s.erased + 1) in
      let now : (entry_count s - min s.erased (entry_count s)) ≡ suc n =
        left_now (entry_count s) s.erased inside in
      let later : (entry_count s - min (next64 s.erased) (entry_count s)) ≡ n =
        left_later (entry_count s) s.erased inside room in
      let (item, found, split) = take-suc_snoc n entries (ground arith) in
      let valid = texts-total _ (All-take Entry.IsValid (suc n) entries h) in
      let (kept, hk) =
        concat-total (current append16) (take n entries)
          (texts-total _ (All-take Entry.IsValid n entries h)) in
      let (last, hl) =
        current-total append16 item (All-get_elem? Entry.IsValid entries n h found) in
      (
        kept,
        last,
        rw (now, split)
            (concat-append (current append16) (take n entries) (item ∷ []) hk
              (concat-single item hl)),
        rw (later) hk,
        ground (arith, next64-eq s.erased room),
        ground (arith, next64-eq s.erased room),
      )

  text-gone : (s : SealedSegment) → entry_count s ≤ s.erased → text append16 s ≡ some []
  unfolding text concat
  text-gone s h = rw (nothing_left (entry_count s) s.erased h)

  -- Where the text before a segment is known and made of whole characters, and Backspace has erased
  -- all entries of the segment and as many characters more as there are in `ds`, nothing is left of the
  -- segment, and the text typed after it continues from what was before `ds`.
  pub following_context-encode :
      (s : SealedSegment) (cs ds : List Character)
      → All IsCharacter (cs ++ ds)
      → s.preceding ≡ some (encode (cs ++ ds))
      → s.erased ≡ entry_count s + length ds
      → (following_context append16 s ≡ some (encode cs)) × (text append16 s ≡ some [])
  unfolding following_context
  following_context-encode s cs ds h before count =
      let gone : text append16 s ≡ some [] = text-gone s (omega arith) in
      let erases : erases_before s ≡ length ds = erases_before-beyond s (length ds) count in
      let dropped : drop_last_characters (erases_before s) (value_or_empty s.preceding)
          ≡ encode cs =
        ap (λ n. drop_last_characters n (value_or_empty s.preceding)) erases
        ∙ ap (λ t. drop_last_characters (length ds) (value_or_empty t)) before
        ∙ drop_last_characters-encode cs ds h in
      (ground (arith, gone, dropped, append-nil (encode cs)), gone)

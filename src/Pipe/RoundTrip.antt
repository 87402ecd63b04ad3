-- ===== src/Pipe/RoundTrip.antt =====
-- What the engine of frontend/src/engine/impl/pipeEngine.hpp writes, as the loop of
-- service/src/service/prediction_pipe_server.hpp reads it.
use ime_windows.Prelude.{
  ℕ, ◌≤◌, ◌<◌, ◌≡◌, refl, inl, inr, Bool, true, false, not, some, List, [], ◌∷◌, ◌++◌, length, leb,
  is_empty, All, arith, append_assoc, Bool-cases, guard, ◌>>◌, ◌==◌,
}
use ime_windows.Bopomofo.Entry.{
  BopomofoPos, current32, to_bopomofo_string, to_toneless_bopomofo_string,
}
use ime_windows.Buffer.Text.{CommitInputEntry}
use ime_windows.Pipe.Bytes.{
  value, values, string, IsShort, read_val-value, read_utf16_string-string,
}
use ime_windows.Pipe.Client.{flag, entry_request, entry_requests, input_request, input_requests}
use ime_windows.Pipe.Server.{
  PaddingEntry, read_padding_entry, read_padding_entries, read_input_entry, read_input,
}

-- What the service takes of an entry of a commit.
abbrev pub IsInput : CommitInputEntry → Type 0
IsInput e = IsShort 1024 e.reading × IsShort 1024 e.output × (0 < length e.output)

flag-small : (b : Bool) → flag b < values 1
flag-small true = omega arith
flag-small false = omega arith

pub not-is_empty {ℓ} : {A : Type ℓ} (xs : List A) → 0 < length xs → is_empty xs ≡ false
not-is_empty [] h = absurd (omega arith)
not-is_empty (x ∷ xs) h = refl

manual-read :
    (e : CommitInputEntry) (rest : List ℕ)
    → (let seen : CommitInputEntry × List ℕ =
          (record e { manually_selected = not (flag e.manually_selected == 0) }, rest) in
        guard (leb (flag e.manually_selected) 1) >> some seen)
      ≡ some (e, rest)
manual-read e rest = elim (Bool-cases e.manually_selected) [ inl m ↦ rw m | inr m ↦ rw m ]

read_input_entry-input_request :
    (e : CommitInputEntry) (rest : List ℕ)
    → IsInput e
    → read_input_entry (input_request e ++ rest) ≡ some (e, rest)
unfolding read_input_entry input_request
read_input_entry-input_request e rest (short_reading, short_output, shown) =
    let by_hand = value 1 (flag e.manually_selected) in
    rw
      (
        append_assoc (string e.reading ++ string e.output) by_hand rest,
        append_assoc (string e.reading) (string e.output) (by_hand ++ rest),
        read_utf16_string-string 1024 e.reading (string e.output ++ (by_hand ++ rest)) (omega arith)
            short_reading,
        read_utf16_string-string 1024 e.output (by_hand ++ rest) (omega arith) short_output,
        not-is_empty e.output shown,
        read_val-value 1 (flag e.manually_selected) rest (flag-small e.manually_selected),
      )
      (manual-read e rest)

pub read_input-input_requests :
    (entries : List CommitInputEntry) (rest : List ℕ)
    → All IsInput entries
    → read_input (length entries) (input_requests entries ++ rest) ≡ some (entries, rest)
unfolding read_input input_requests
read_input-input_requests [] rest h = refl
read_input-input_requests (e ∷ entries) rest h = rw (
  append_assoc (input_request e) (input_requests entries) rest,
  read_input_entry-input_request e (input_requests entries ++ rest) h.0,
  read_input-input_requests entries rest h.1,
)

-- What the service takes of an entry of a prediction.
pub record IsSendable (e : BopomofoPos) : Type 0 where
  pub is_character : (c : ℕ) → current32 e ≡ some c → c ≤ 0x10FFFF
  pub has_character : e.chosen ≡ true → (c : ℕ) × (current32 e ≡ some c)
  pub has_units : All (λ c. c < 0x10000) (to_bopomofo_string e)

-- What the service is to see of an entry: the character that it shows, if it is chosen, and its reading otherwise.
unfoldable pub Carries : BopomofoPos → PaddingEntry → Type 0
Carries e (PaddingEntry.reading bopomofo) = (e.chosen ≡ false) × (bopomofo ≡ to_bopomofo_string e)
Carries e (PaddingEntry.chosen chosen_char) = (e.chosen ≡ true) × (current32 e ≡ some chosen_char)

unfoldable pub AllCarry : List BopomofoPos → List PaddingEntry → Type 0
AllCarry [] [] = Unit
AllCarry [] (p ∷ ps) = ⊥
AllCarry (e ∷ es) [] = ⊥
AllCarry (e ∷ es) (p ∷ ps) = Carries e p × AllCarry es ps

IsShort-reading : (e : BopomofoPos) → IsSendable e → IsShort 1024 (to_bopomofo_string e)
unfolding to_bopomofo_string to_toneless_bopomofo_string
IsShort-reading e s = (ground arith, s.has_units)

chosen-read :
    (c : ℕ) (rest : List ℕ)
    → c ≤ 0x10FFFF
    → read_padding_entry ((value 1 1 ++ value 4 c) ++ rest) ≡ some (PaddingEntry.chosen c, rest)
unfolding read_padding_entry
chosen-read c rest small =
    let fits : leb c 0x10FFFF ≡ true = ground arith in
    rw (
      append_assoc (value 1 1) (value 4 c) rest,
      read_val-value 1 1 (value 4 c ++ rest) (omega arith),
      read_val-value 4 c rest (omega arith),
      fits,
    )

reading-read :
    (text rest : List ℕ)
    → IsShort 1024 text
    → read_padding_entry ((value 1 0 ++ string text) ++ rest)
      ≡ some (PaddingEntry.reading text, rest)
unfolding read_padding_entry
reading-read text rest short = rw (
  append_assoc (value 1 0) (string text) rest,
  read_val-value 1 0 (string text ++ rest) (omega arith),
  read_utf16_string-string 1024 text rest (omega arith) short,
)

entry-read :
    (e : BopomofoPos)
    → IsSendable e
    → (bytes : List ℕ) × (p : PaddingEntry) × (entry_request e ≡ some bytes)
      × Carries e p
      × ((rest : List ℕ) → read_padding_entry (bytes ++ rest) ≡ some (p, rest))
unfolding entry_request Carries
entry-read e s = elim (Bool-cases e.chosen) [
  | inl k ↦
      let (c, hit) = s.has_character k in
      (
        value 1 1 ++ value 4 c,
        PaddingEntry.chosen c,
        ground (arith, k, hit),
        (k, hit),
        λ rest. chosen-read c rest (s.is_character c hit),
      )
  | inr k ↦ (
    value 1 0 ++ string (to_bopomofo_string e),
    PaddingEntry.reading (to_bopomofo_string e),
    rw k,
    (k, refl),
    λ rest. reading-read (to_bopomofo_string e) rest (IsShort-reading e s),
  )
]

pub entries-read :
    (es : List BopomofoPos)
    → All IsSendable es
    → (bytes : List ℕ) × (ps : List PaddingEntry) × (entry_requests es ≡ some bytes)
      × AllCarry es ps
      × ((rest : List ℕ) → read_padding_entries (length es) (bytes ++ rest) ≡ some (ps, rest))
unfolding entry_requests AllCarry read_padding_entries
entries-read [] h = ([], [], refl, tt, λ rest. refl)
entries-read (e ∷ es) h =
    let (first, p, sent, carries, taken) = entry-read e h.0 in
    let (more, ps, all_sent, all_carry, all_taken) = entries-read es h.1 in
    (
      first ++ more,
      p ∷ ps,
      rw (sent, all_sent),
      (carries, all_carry),
      λ rest. rw (append_assoc first more rest, taken (more ++ rest), all_taken rest),
    )

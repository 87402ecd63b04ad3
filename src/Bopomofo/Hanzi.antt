-- ===== src/Bopomofo/Hanzi.antt =====
-- class HanziMapEngine (frontend/src/core/bopomofo.hpp): the table from readings to characters. The
-- file that it is read from, its search on disk, the JSON reader and the UTF-8 decoders are not
-- modelled: the decoded pairs and the decoders come in as arguments.
use ime_windows.Prelude.{
  ℕ, Bool, Option, none, some, List, [], ◌∷◌, map, contains, list_eq, if◌then◌else◌,
}

pub record HanziMapEngine : Type 0 where
  pub mapping : List (List ℕ × List ℕ)
  pub hanzi_set : List ℕ

-- `mapping.contains` and `mapping[key]`; an assignment to a key replaces its value.
unfoldable pub find_reading : List (List ℕ × List ℕ) → List ℕ → Option (List ℕ)
find_reading [] key = none
find_reading ((k, v) ∷ rest) key = if list_eq k key then some v else find_reading rest key

unfoldable pub assign : List (List ℕ × List ℕ) → List ℕ → List ℕ → List (List ℕ × List ℕ)
assign [] key v = (key, v) ∷ []
assign ((k, w) ∷ rest) key v = if list_eq k key then (k, v) ∷ rest else (k, w) ∷ assign rest key v

unfoldable pub lookup_all : HanziMapEngine → List ℕ → Option (List ℕ)
lookup_all engine bopomofo = find_reading engine.mapping bopomofo

-- `none` is the exception "table error"; 0x4e is the letter N of the temporary fallback.
unfoldable pub lookup_first : HanziMapEngine → List ℕ → Option ℕ
lookup_first engine bopomofo = elim (lookup_all engine bopomofo) [
  | none ↦ some 0x4e
  | some [] ↦ none
  | some (c ∷ cs) ↦ some c
]

unfoldable pub contains_word : HanziMapEngine → ℕ → Bool
contains_word engine word = contains engine.hanzi_set word

-- std::unordered_set::insert.
unfoldable pub insert_word : List ℕ → ℕ → List ℕ
insert_word words c = if contains words c then words else c ∷ words

unfoldable pub insert_words : List ℕ → List ℕ → List ℕ
insert_words words [] = words
insert_words words (c ∷ cs) = insert_words (insert_word words c) cs

-- The constructor's loop over the pairs of the file. `key_units` stands for utf8::utf8to16, and
-- `first_char` for the first code point of utf8::utf8to32.
module _ {Text : Type 0} (key_units : Text → List ℕ) (first_char : Text → ℕ) where
  unfoldable pub load_entry : HanziMapEngine → Text → List Text → HanziMapEngine
  load_entry engine k v =
      let wvec = map first_char v in
      record {
        mapping = assign engine.mapping (key_units k) wvec;
        hanzi_set = insert_words engine.hanzi_set wvec;
      }

  unfoldable pub load : HanziMapEngine → List (Text × List Text) → HanziMapEngine
  load engine [] = engine
  load engine ((k, v) ∷ rest) = load (load_entry engine k v) rest

unfoldable pub empty_engine : HanziMapEngine
empty_engine = record { mapping = []; hanzi_set = [] }

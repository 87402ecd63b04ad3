-- ===== src/Pipe/Bytes.antt =====
-- Values as bytes in memory order, the lowest first (PipeEngine::Request of
-- frontend/src/engine/impl/pipeEngine.hpp; read_val and read_utf16_string of
-- service/src/service/prediction_pipe_server.hpp). A stream is the list of the bytes still to come, and
-- `none` the end of the pipe within a value.
use ime_windows.Prelude.{
  ℕ, zero, suc, ◌+◌, ◌*◌, ◌/◌, ◌%◌, ◌<◌, ◌≤◌, ◌≡◌, refl, Option, none, some, List, [], ◌∷◌, ◌++◌,
  length, leb, true, All, arith, append_assoc, ◌>>=◌, ◌>>◌, guard,
}

-- `value`: the `n` low bytes.
unfoldable pub value : ℕ → ℕ → List ℕ
value zero v = []
value (suc n) v = (v % 256) ∷ value n (v / 256)

-- `read_val` of `n` bytes.
unfoldable pub read_val : ℕ → List ℕ → Option (ℕ × List ℕ)
read_val zero bytes = some (0, bytes)
read_val (suc n) [] = none
read_val (suc n) (b ∷ bytes) = do (high, rest) ← read_val n bytes; some (b + 256 * high, rest)

-- How many values `n` bytes have.
abbrev pub values : ℕ → ℕ
values zero = 1
values (suc n) = 256 * values n

unfoldable pub unit_bytes : List ℕ → List ℕ
unit_bytes [] = []
unit_bytes (c ∷ text) = value 2 c ++ unit_bytes text

-- `string`: the length, and the code units.
unfoldable pub string : List ℕ → List ℕ
string text = value 4 (length text) ++ unit_bytes text

-- `read_exact` of `n` values of `width` bytes.
unfoldable pub read_values : ℕ → ℕ → List ℕ → Option (List ℕ × List ℕ)
read_values width zero bytes = some ([], bytes)
read_values width (suc n) bytes = do
  (c, after) ← read_val width bytes
  (text, rest) ← read_values width n after
  some (c ∷ text, rest)

unfoldable pub read_utf16_string : ℕ → List ℕ → Option (List ℕ × List ℕ)
read_utf16_string maximum_length bytes = do
  (size, after) ← read_val 4 bytes
  guard (leb size maximum_length)
  read_values 2 size after

pub read_val-value :
    (n v : ℕ) (rest : List ℕ) → v < values n → read_val n (value n v ++ rest) ≡ some (v, rest)
unfolding read_val value
read_val-value zero v rest h = ground arith
read_val-value (suc n) v rest h = ground (arith, read_val-value n (v / 256) rest (omega arith))

-- Values of `width` bytes, one after the other.
unfoldable pub all_values : ℕ → List ℕ → List ℕ
all_values width [] = []
all_values width (c ∷ text) = value width c ++ all_values width text

pub read_values-all_values :
    (width : ℕ) (text rest : List ℕ)
    → All (λ c. c < values width) text
    → read_values width (length text) (all_values width text ++ rest) ≡ some (text, rest)
unfolding read_values all_values
read_values-all_values width [] rest h = refl
read_values-all_values width (c ∷ text) rest h = rw (
  append_assoc (value width c) (all_values width text) rest,
  read_val-value width c (all_values width text ++ rest) h.0,
  read_values-all_values width text rest h.1,
)

unit_bytes-all_values : (text : List ℕ) → unit_bytes text ≡ all_values 2 text
unfolding unit_bytes all_values
unit_bytes-all_values [] = refl
unit_bytes-all_values (c ∷ text) = rw (unit_bytes-all_values text)

-- What `read_utf16_string` takes of a text.
abbrev pub IsShort : ℕ → List ℕ → Type 0
IsShort maximum_length text = (length text ≤ maximum_length) × All (λ c. c < 0x10000) text

pub read_utf16_string-string :
    (maximum_length : ℕ) (text rest : List ℕ)
    → maximum_length < values 4
    → IsShort maximum_length text
    → read_utf16_string maximum_length (string text ++ rest) ≡ some (text, rest)
unfolding read_utf16_string string
read_utf16_string-string maximum_length text rest wide (short, h) =
    let fits : leb (length text) maximum_length ≡ true = ground arith in
    rw
      (
        append_assoc (value 4 (length text)) (unit_bytes text) rest,
        read_val-value 4 (length text) (unit_bytes text ++ rest) (omega arith),
        fits,
        unit_bytes-all_values text,
      )
      (read_values-all_values 2 text rest h)

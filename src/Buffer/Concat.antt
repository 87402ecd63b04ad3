-- ===== src/Buffer/Concat.antt =====
-- How the text of a buffer is made of the texts of its parts (frontend/src/core/buffer.hpp).
use ime_windows.Prelude.{
  ℕ, ◌≡◌, refl, Bool, Option, none, some, List, [], ◌∷◌, ◌++◌, length, All, arith, append_assoc,
  length-append, next64,
}
use ime_windows.Bopomofo.Entry.{BopomofoPos, current, set_chosen_candidate}
use ime_windows.Bopomofo.Symbols.{IsUnit, EncodesUnits}
use ime_windows.Buffer.Text.{concat, sum_sizes, both}
use ime_windows.Buffer.Edits.{literal_entry, literal_entries}

pub both-inv {ℓ} :
    {A B C : Type ℓ} (f : A → B → C) (x : Option A) (y : Option B) {z : C}
    → both f x y ≡ some z
    → (a : A) × (b : B) × (x ≡ some a) × (y ≡ some b) × (z ≡ f a b)
both-inv f none y h = cc
both-inv f (some a) none h = cc
both-inv f (some a) (some b) h = (a, b, refl, refl, cc)

module _ (text : BopomofoPos → Option (List ℕ)) where
  pub concat-append :
      (xs ys : List BopomofoPos) {a c : List ℕ}
      → concat text xs ≡ some a
      → concat text ys ≡ some c
      → concat text (xs ++ ys) ≡ some (a ++ c)
  unfolding concat
  concat-append [] ys h k = ground arith
  concat-append (x ∷ xs) ys {a} {c} h k =
      let (p, q, hx, hxs, eq) = both-inv _ (text x) (concat text xs) h in
      rw (hx, concat-append xs ys hxs k, eq, append_assoc p q c)

  pub concat-cons :
      (x : BopomofoPos) (xs : List BopomofoPos) {a c : List ℕ}
      → text x ≡ some a
      → concat text xs ≡ some c
      → concat text (x ∷ xs) ≡ some (a ++ c)
  unfolding concat
  concat-cons x xs h k = rw (h, k)

  -- The size that is added up is the length of the text.
  pub sum_sizes-concat :
      (xs : List BopomofoPos) {a : List ℕ}
      → concat text xs ≡ some a
      → sum_sizes text xs ≡ some (length a)
  unfolding concat sum_sizes
  sum_sizes-concat [] h = ground arith
  sum_sizes-concat (x ∷ xs) h =
      let (p, q, hx, hxs, eq) = both-inv _ (text x) (concat text xs) h in
      rw (hx, sum_sizes-concat xs hxs, eq, length-append p q)

  pub concat-total :
      (xs : List BopomofoPos)
      → All (λ x. (a : List ℕ) × (text x ≡ some a)) xs
      → (a : List ℕ) × (concat text xs ≡ some a)
  unfolding concat
  concat-total [] h = ([], refl)
  concat-total (x ∷ xs) h =
      let (a, ha) = h.0 in let (c, hc) = concat-total xs h.1 in (a ++ c, rw (ha, hc))

module _ (append16 : ℕ → List ℕ) where
  literal_entry-current :
      (manual : Bool) (key ch : ℕ)
      → current append16 (literal_entry manual key ch) ≡ some (append16 ch)
  unfolding current literal_entry set_chosen_candidate
  literal_entry-current manual key ch = refl

  -- Symbols that became ordinary text read as they were typed.
  pub literal_entries-concat :
      (manual : Bool) (key : ℕ) (symbols : List ℕ)
      → EncodesUnits append16
      → All IsUnit symbols
      → concat (current append16) (literal_entries manual key symbols) ≡ some symbols
  unfolding concat literal_entries
  literal_entries-concat manual key [] enc u = refl
  literal_entries-concat manual key (ch ∷ symbols) enc u = rw (
    literal_entry-current manual key ch,
    enc ch u.0,
    literal_entries-concat manual (next64 key) symbols enc u.1,
  )

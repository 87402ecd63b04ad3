-- ===== src/Sealed/Characters.antt =====
-- `drop_last_characters` takes whole characters (frontend/src/core/sealed_text.cpp).
use ime_windows.Prelude.{
  ℕ, zero, suc, ◌≡◌, refl, sym, ap, ◌∙◌, true, false, some, List, [], ◌∷◌, ◌++◌, arith, length, All,
  append_assoc, append-nil,
}
use ime_windows.Sealed.Units.{
  pop_back, back?, is_high_surrogate, ends_high, drop_last_character, drop_last_characters,
}

-- A character in UTF-16: one code unit, or a surrogate pair.
pub data Character : Type 0 where
  unit : ℕ → Character
  pair : ℕ → ℕ → Character

unfoldable pub units : Character → List ℕ
units (unit c) = c ∷ []
units (pair high low) = high ∷ low ∷ []

-- The one unit, and the second of a pair, are no high surrogates; the first of a pair is one.
unfoldable pub IsCharacter : Character → Type 0
IsCharacter (unit c) = is_high_surrogate c ≡ false
IsCharacter (pair high low) = (is_high_surrogate high ≡ true) × (is_high_surrogate low ≡ false)

unfoldable pub encode : List Character → List ℕ
encode [] = []
encode (c ∷ cs) = units c ++ encode cs

encode-append : (cs ds : List Character) → encode (cs ++ ds) ≡ encode cs ++ encode ds
unfolding encode
encode-append [] ds = refl
encode-append (c ∷ cs) ds = rw (encode-append cs ds, append_assoc (units c) (encode cs) (encode ds))

pop_back-append : (xs : List ℕ) (c : ℕ) → pop_back (xs ++ c ∷ []) ≡ xs
pop_back-append [] c = refl
pop_back-append (x ∷ []) c = refl
pop_back-append (x ∷ y ∷ xs) c = ap (λ t. x ∷ t) (pop_back-append (y ∷ xs) c)

back?-append : (xs : List ℕ) (c : ℕ) → back? (xs ++ c ∷ []) ≡ some c
back?-append [] c = refl
back?-append (x ∷ []) c = refl
back?-append (x ∷ y ∷ xs) c = back?-append (y ∷ xs) c

ends_high-encode : (cs : List Character) → All IsCharacter cs → ends_high (encode cs) ≡ false
unfolding encode units IsCharacter
ends_high-encode [] h = refl
ends_high-encode (unit c ∷ []) h = ground arith
ends_high-encode (pair high low ∷ []) h = ground arith
ends_high-encode (unit c ∷ unit d ∷ cs) h = ends_high-encode (unit d ∷ cs) h.1
ends_high-encode (unit c ∷ pair d e ∷ cs) h = ends_high-encode (pair d e ∷ cs) h.1
ends_high-encode (pair a b ∷ unit d ∷ cs) h = ends_high-encode (unit d ∷ cs) h.1
ends_high-encode (pair a b ∷ pair d e ∷ cs) h = ends_high-encode (pair d e ∷ cs) h.1

ends_high-append : (xs : List ℕ) (c : ℕ) → ends_high (xs ++ c ∷ []) ≡ is_high_surrogate c
ends_high-append xs c = ground (arith, back?-append xs c)

drop_last_character-append :
    (xs : List ℕ) (c : Character)
    → ends_high xs ≡ false
    → IsCharacter c
    → drop_last_character (xs ++ units c) ≡ xs
unfolding drop_last_character units IsCharacter
drop_last_character-append xs (unit c) e h = rw (pop_back-append xs c, e)
drop_last_character-append xs (pair high low) e h =
    let assoc : (xs ++ high ∷ low ∷ []) ≡ ((xs ++ high ∷ []) ++ low ∷ []) =
      sym (append_assoc xs (high ∷ []) (low ∷ [])) in
    rw (
      assoc,
      pop_back-append (xs ++ high ∷ []) low,
      ends_high-append xs high,
      h.0,
      pop_back-append xs high,
    )

drop_last_characters-suc :
    (n : ℕ) (text : List ℕ)
    → drop_last_characters (suc n) text ≡ drop_last_character (drop_last_characters n text)
unfolding drop_last_characters drop_last_character
drop_last_characters-suc zero [] = refl
drop_last_characters-suc zero (c ∷ text) = refl
drop_last_characters-suc (suc n) [] = refl
drop_last_characters-suc (suc n) (c ∷ text) =
    drop_last_characters-suc n (drop_last_character (c ∷ text))

All-append_left {ℓ κ} : {A : Type ℓ} (P : A → Type κ) (xs ys : List A) → All P (xs ++ ys) → All P xs
All-append_left P [] ys h = tt
All-append_left P (x ∷ xs) ys h = (h.0, All-append_left P xs ys h.1)

All-append_right {ℓ κ} :
    {A : Type ℓ} (P : A → Type κ) (xs ys : List A) → All P (xs ++ ys) → All P ys
All-append_right P [] ys h = h
All-append_right P (x ∷ xs) ys h = All-append_right P xs ys h.1

drop_last_character-encode :
    (cs : List Character) (d : Character)
    → All IsCharacter cs
    → IsCharacter d
    → drop_last_character (encode (cs ++ d ∷ [])) ≡ encode cs
unfolding encode
drop_last_character-encode cs d h k =
    ap drop_last_character
      (encode-append cs (d ∷ []) ∙ ap (λ t. encode cs ++ t) (append-nil (units d)))
    ∙ drop_last_character-append (encode cs) d (ends_high-encode cs h) k

-- Text made of whole characters loses exactly its last ones, as many as asked, and a surrogate pair
-- is never split.
pub drop_last_characters-encode :
    (cs ds : List Character)
    → All IsCharacter (cs ++ ds)
    → drop_last_characters (length ds) (encode (cs ++ ds)) ≡ encode cs
unfolding drop_last_characters
drop_last_characters-encode cs [] h = ap encode (append-nil cs)
drop_last_characters-encode cs (d ∷ ds) h =
    let shift : ((cs ++ d ∷ []) ++ ds) ≡ (cs ++ d ∷ ds) = append_assoc cs (d ∷ []) ds in
    let whole : All IsCharacter ((cs ++ d ∷ []) ++ ds) = rw (shift) h in
    drop_last_characters-suc (length ds) (encode (cs ++ d ∷ ds))
    ∙ ap (λ t. drop_last_character (drop_last_characters (length ds) (encode t))) (sym shift)
    ∙ ap drop_last_character (drop_last_characters-encode (cs ++ d ∷ []) ds whole)
    ∙ drop_last_character-encode cs d (All-append_left IsCharacter cs (d ∷ ds) h)
        (All-append_right IsCharacter cs (d ∷ ds) h).0

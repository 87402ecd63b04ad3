-- ===== src/Buffer/Merging.antt =====
-- What a backend result may change in a buffer (`merge_conversion`, frontend/src/core/buffer.hpp).
use ime_windows.Prelude.{
  ℕ, zero, suc, ◌≤◌, ◌≡◌, refl, sym, ap, ◌∙◌, ◌⊎◌, inl, inr, true, false, not, Option, some, List,
  [], ◌∷◌, length, arith, get_elem?, set, holds_nat, Option-cases, Bool-cases, ◌==◌, if-elim,
}
use ime_windows.Bopomofo.Entry.{BopomofoPos}
use ime_windows.Buffer.State.{CompositionBuffer, find}
use ime_windows.Buffer.Merge.{
  MergeOutcome, Merging, is_usable, still_wanted, converted_entry, merge_found, merge_one,
  merge_loop, merge_conversion,
}
use ime_windows.Buffer.Selecting.{find-get_elem?}

-- `output` is the answer for a request that was sent for this entry, at the version that it has.
abbrev pub Answers : List BopomofoPos → List BopomofoPos → BopomofoPos → BopomofoPos → Type 0
Answers [] os item output = ⊥
Answers (r ∷ rs) [] item output = ⊥
Answers (r ∷ rs) (o ∷ os) item output =
    ((r.id ≡ item.id) × (r.version ≡ item.version) × (o ≡ output)) ⊎ Answers rs os item output

-- What a merge may do to an entry: nothing, or give it a result. It gets one only if it is the entry
-- that was sent, is not fixed, shows no newer result and is not locked.
pub data Merged (sequence : ℕ) (locked_id : Option ℕ) (requested converted : List BopomofoPos)
    (item : BopomofoPos) : BopomofoPos → Type 0 where
  kept :
      {item' : BopomofoPos}
      → item' ≡ item
      → Merged sequence locked_id requested converted item item'
  merged :
      {item' : BopomofoPos} (output : BopomofoPos)
      → is_usable output ≡ true
      → Answers requested converted item output
      → item.chosen ≡ false
      → item.converted_by ≤ sequence
      → holds_nat locked_id item.id ≡ false
      → item' ≡ converted_entry sequence output item
      → Merged sequence locked_id requested converted item item'

abbrev pub Pointwise {ℓ} : {A : Type ℓ} → (A → A → Type 0) → List A → List A → Type 0
Pointwise R [] [] = Unit
Pointwise R [] (y ∷ ys) = ⊥
Pointwise R (x ∷ xs) [] = ⊥
Pointwise R (x ∷ xs) (y ∷ ys) = R x y × Pointwise R xs ys

module _ {ℓ} {A : Type ℓ} (R : A → A → Type 0) where
  pub Pointwise-refl : ((x : A) → R x x) → (xs : List A) → Pointwise R xs xs
  Pointwise-refl r [] = tt
  Pointwise-refl r (x ∷ xs) = (r x, Pointwise-refl r xs)

  pub Pointwise-trans :
      ((x y z : A) → R x y → R y z → R x z)
      → (xs ys zs : List A) → Pointwise R xs ys
      → Pointwise R ys zs
      → Pointwise R xs zs
  Pointwise-trans t [] [] [] p q = tt
  Pointwise-trans t [] [] (z ∷ zs) p q = absurd q
  Pointwise-trans t [] (y ∷ ys) zs p q = absurd p
  Pointwise-trans t (x ∷ xs) [] zs p q = absurd p
  Pointwise-trans t (x ∷ xs) (y ∷ ys) [] p q = absurd q
  Pointwise-trans t (x ∷ xs) (y ∷ ys) (z ∷ zs) p q =
      (t x y z p.0 q.0, Pointwise-trans t xs ys zs p.1 q.1)

  pub Pointwise-set :
      ((x : A) → R x x)
      → (xs : List A) (i : ℕ) {x : A} (v : A) → get_elem? xs i ≡ some x
      → R x v
      → Pointwise R xs (set xs i v)
  Pointwise-set r [] i v h k = tt
  Pointwise-set r (y ∷ xs) zero {x} v h k =
      let same : x ≡ y = cc in (rw same at k, Pointwise-refl r xs)
  Pointwise-set r (y ∷ xs) (suc i) v h k = (r y, Pointwise-set r xs i v h k)

  pub Pointwise-map :
      (S : A → A → Type 0)
      → ((x y : A) → R x y → S x y)
      → (xs ys : List A) → Pointwise R xs ys
      → Pointwise S xs ys
  Pointwise-map S f [] [] p = tt
  Pointwise-map S f [] (y ∷ ys) p = absurd p
  Pointwise-map S f (x ∷ xs) [] p = absurd p
  Pointwise-map S f (x ∷ xs) (y ∷ ys) p = (f x y p.0, Pointwise-map S f xs ys p.1)

module _ (sequence : ℕ) (locked_id : Option ℕ) where
  still_wanted-parts :
      (r item : BopomofoPos)
      → not (still_wanted sequence r item) ≡ false
      → (r.version ≡ item.version) × (item.chosen ≡ false) × (item.converted_by ≤ sequence)
  unfolding still_wanted
  still_wanted-parts r item h = ground arith

  -- A result leaves the id and the version.
  moved :
      (rs os : List BopomofoPos) (x y o o' : BopomofoPos)
      → Answers rs os y o'
      → y ≡ converted_entry sequence o x
      → Answers rs os x o'
  unfolding converted_entry
  moved [] os x y o o' a e = a
  moved (r ∷ rs) [] x y o o' a e = a
  moved (r ∷ rs) (p ∷ os) x y o o' (inl (i, v, same)) e =
      inl (i ∙ ap (λ t. t.id) e, v ∙ ap (λ t. t.version) e, same)
  moved (r ∷ rs) (p ∷ os) x y o o' (inr a) e = inr (moved rs os x y o o' a e)

  Merged-trans :
      (rs os : List BopomofoPos) (x y z : BopomofoPos)
      → Merged sequence locked_id rs os x y
      → Merged sequence locked_id rs os y z
      → Merged sequence locked_id rs os x z
  unfolding converted_entry
  Merged-trans rs os x y z (kept e) q = rw e at q
  Merged-trans rs os x y z (merged o u a c n l e) (kept f) = merged o u a c n l (f ∙ e)
  Merged-trans rs os x y z (merged o u a c n l e) (merged o' u' a' c' n' l' e') =
      merged o' u' (moved rs os x y o o' a' e) c n l (e' ∙ rw e)

  Merged-mono :
      (r o : BopomofoPos) (rs os : List BopomofoPos) (x y : BopomofoPos)
      → Merged sequence locked_id rs os x y
      → Merged sequence locked_id (r ∷ rs) (o ∷ os) x y
  Merged-mono r o rs os x y (kept e) = kept e
  Merged-mono r o rs os x y (merged p u a c n l e) = merged p u (inr a) c n l e

  merge_found-Merged :
      (r o : BopomofoPos) (rs os : List BopomofoPos) (position : ℕ) (item : BopomofoPos)
      (s : Merging)
      → is_usable o ≡ true
      → get_elem? s.buffer position ≡ some item
      → item.id ≡ r.id
      → Pointwise
          (Merged sequence locked_id (r ∷ rs) (o ∷ os))
          s.buffer
          (merge_found sequence locked_id r o position item s).buffer
  unfolding merge_found
  merge_found-Merged r o rs os position item s u there named =
      let same =
        Pointwise-refl (Merged sequence locked_id (r ∷ rs) (o ∷ os)) (λ x. kept refl) s.buffer in
      if-elim {A = Merging}
        (λ t. Pointwise (Merged sequence locked_id (r ∷ rs) (o ∷ os)) s.buffer t.buffer)
        (not (still_wanted sequence r item)) (λ _. same)
        (λ wanted.
          if-elim {A = Merging}
            (λ t. Pointwise (Merged sequence locked_id (r ∷ rs) (o ∷ os)) s.buffer t.buffer)
            (holds_nat locked_id item.id) (λ _. same)
            (λ unlocked.
              Pointwise-set (Merged sequence locked_id (r ∷ rs) (o ∷ os)) (λ x. kept refl) s.buffer
                position (converted_entry sequence o item) there
                (let (version, free, older) = still_wanted-parts r item wanted in
                  merged o u (inl (sym named, version, refl)) free older unlocked refl)))

  merge_one-Merged :
      (r o : BopomofoPos) (rs os : List BopomofoPos) (s : Merging)
      → Pointwise
          (Merged sequence locked_id (r ∷ rs) (o ∷ os))
          s.buffer
          (merge_one sequence locked_id r o s).buffer
  unfolding merge_one
  merge_one-Merged r o rs os s =
      let same =
        Pointwise-refl (Merged sequence locked_id (r ∷ rs) (o ∷ os)) (λ x. kept refl) s.buffer in
      elim (Bool-cases (is_usable o)) [
        | inr unusable ↦ rw unusable same
        | inl usable ↦ elim (Option-cases (find r.id s.buffer)) [
          | inl absent ↦ rw (usable, absent, merge_one) same
          | inr (at, found) ↦
              let (there, named) = find-get_elem? r.id s.buffer found in
              rw (usable, found, merge_one)
                (merge_found-Merged r o rs os at.0 at.1 s usable there named)
        ]
      ]

  merge_loop-Merged :
      (rs os : List BopomofoPos) (s : Merging)
      → Pointwise
          (Merged sequence locked_id rs os)
          s.buffer
          (merge_loop sequence locked_id rs os s).buffer
  unfolding merge_loop
  merge_loop-Merged [] os s =
      Pointwise-refl (Merged sequence locked_id [] os) (λ x. kept refl) s.buffer
  merge_loop-Merged (r ∷ rs) [] s =
      Pointwise-refl (Merged sequence locked_id (r ∷ rs) []) (λ x. kept refl) s.buffer
  merge_loop-Merged (r ∷ rs) (o ∷ os) s =
      let s' = merge_one sequence locked_id r o s in
      Pointwise-trans (Merged sequence locked_id (r ∷ rs) (o ∷ os)) (Merged-trans (r ∷ rs) (o ∷ os))
        s.buffer s'.buffer _ (merge_one-Merged r o rs os s)
        (Pointwise-map (Merged sequence locked_id rs os)
          (Merged sequence locked_id (r ∷ rs) (o ∷ os)) (Merged-mono r o rs os) s'.buffer _
          (merge_loop-Merged rs os s'))

  -- A result changes entries only in place: each entry stays as it was, or is one that the request was
  -- sent for at its present version, neither fixed nor locked nor showing a newer result, and takes a
  -- usable output. The caret, the revision and the next id stay.
  pub merge_conversion-Merged :
      (requested converted : List BopomofoPos) (b : CompositionBuffer)
      → let b' = (merge_conversion sequence requested converted locked_id b).0 in
        Pointwise (Merged sequence locked_id requested converted) b.buffer b'.buffer
        × (b'.caret ≡ b.caret)
        × (b'.revision ≡ b.revision)
        × (b'.next_id ≡ b.next_id)
  unfolding merge_conversion
  merge_conversion-Merged requested converted b =
      if-elim {A = CompositionBuffer × MergeOutcome}
        (λ r.
          Pointwise (Merged sequence locked_id requested converted) b.buffer r.0.buffer
          × (r.0.caret ≡ b.caret)
          × (r.0.revision ≡ b.revision)
          × (r.0.next_id ≡ b.next_id))
        (length requested == length converted)
        (λ _. (merge_loop-Merged requested converted _, refl, refl, refl))
        (λ _. (
          Pointwise-refl (Merged sequence locked_id requested converted) (λ x. kept refl) b.buffer,
          refl,
          refl,
          refl,
        ))

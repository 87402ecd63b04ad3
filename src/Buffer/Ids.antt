-- ===== src/Buffer/Ids.antt =====
-- The ids of the entries of a buffer: they stay distinct and below the next id.
use ime_windows.Prelude.{
  ℕ, zero, suc, ◌+◌, ◌<◌, ◌≤◌, ◌≡◌, refl, ap, Bool, false, ◌||◌, some, List, [], ◌∷◌, ◌++◌, length,
  get_elem?, set, take, drop, insert_at, erase_idx, contains, arith, u64_mod, next64, next64-eq,
}
use ime_windows.Bopomofo.Entry.{BopomofoPos, set_chosen_candidate}
use ime_windows.Buffer.Edits.{literal_entry, literal_entries, next_id_after}

abbrev pub ids : List BopomofoPos → List ℕ
ids [] = []
ids (item ∷ rest) = item.id ∷ ids rest

abbrev pub Distinct : List ℕ → Type 0
Distinct [] = Unit {0}
Distinct (k ∷ ks) = (contains ks k ≡ false) × Distinct ks

abbrev pub Below : ℕ → List ℕ → Type 0
Below n [] = Unit {0}
Below n (k ∷ ks) = (k < n) × Below n ks

-- Each at least `n`.
abbrev pub From : ℕ → List ℕ → Type 0
From n [] = Unit {0}
From n (k ∷ ks) = (n ≤ k) × From n ks

pub Below-mono : (m n : ℕ) (ks : List ℕ) → m ≤ n → Below m ks → Below n ks
Below-mono m n [] h b = tt
Below-mono m n (k ∷ ks) h b = (omega arith, Below-mono m n ks h b.1)

pub Below-append : (n : ℕ) (xs ys : List ℕ) → Below n xs → Below n ys → Below n (xs ++ ys)
Below-append n [] ys hx hy = hy
Below-append n (x ∷ xs) ys hx hy = (hx.0, Below-append n xs ys hx.1 hy)

pub Below-split : (n : ℕ) (xs ys : List ℕ) → Below n (xs ++ ys) → Below n xs × Below n ys
Below-split n [] ys h = (tt, h)
Below-split n (x ∷ xs) ys h = let (a, b) = Below-split n xs ys h.1 in ((h.0, a), b)

pub From-mono : (m n : ℕ) (ks : List ℕ) → m ≤ n → From n ks → From m ks
From-mono m n [] h b = tt
From-mono m n (k ∷ ks) h b = (omega arith, From-mono m n ks h b.1)

pub not-contains-Below : (n k : ℕ) (ks : List ℕ) → Below n ks → n ≤ k → contains ks k ≡ false
not-contains-Below n k [] b h = refl
not-contains-Below n k (x ∷ ks) b h = ground (arith, not-contains-Below n k ks b.1 h)

pub not-contains-From : (n k : ℕ) (ks : List ℕ) → From n ks → k < n → contains ks k ≡ false
not-contains-From n k [] b h = refl
not-contains-From n k (x ∷ ks) b h = ground (arith, not-contains-From n k ks b.1 h)

pub contains-append :
    (xs ys : List ℕ) (k : ℕ) → contains (xs ++ ys) k ≡ (contains xs k || contains ys k)
contains-append [] ys k = refl
contains-append (x ∷ xs) ys k = ground (arith, contains-append xs ys k)

-- New ids between two parts of the old ones.
pub Distinct-insert :
    (xs news ys : List ℕ) (n : ℕ)
    → Distinct (xs ++ ys)
    → Below n (xs ++ ys)
    → Distinct news
    → From n news
    → Distinct (xs ++ (news ++ ys))
Distinct-insert [] [] ys n d b dn fn = d
Distinct-insert [] (k ∷ news) ys n d b dn fn = ground (
  arith,
  contains-append news ys k,
  not-contains-Below n k ys b fn.0,
  Distinct-insert [] news ys n d b dn.1 fn.1,
)
Distinct-insert (x ∷ xs) news ys n d b dn fn = ground (
  arith,
  contains-append xs (news ++ ys) x,
  contains-append news ys x,
  contains-append xs ys x,
  not-contains-From n x news fn b.0,
  Distinct-insert xs news ys n d.1 b.1 dn fn,
)

pub Distinct-drop_middle : (xs ys : List ℕ) (k : ℕ) → Distinct (xs ++ k ∷ ys) → Distinct (xs ++ ys)
Distinct-drop_middle [] ys k d = d.1
Distinct-drop_middle (x ∷ xs) ys k d = ground (
  arith,
  contains-append xs (k ∷ ys) x,
  contains-append xs ys x,
  Distinct-drop_middle xs ys k d.1,
)

pub Below-drop_middle :
    (n : ℕ) (xs ys : List ℕ) (k : ℕ) → Below n (xs ++ k ∷ ys) → Below n (xs ++ ys)
Below-drop_middle n [] ys k d = d.1
Below-drop_middle n (x ∷ xs) ys k d = (d.0, Below-drop_middle n xs ys k d.1)

pub ids-append : (xs ys : List BopomofoPos) → ids (xs ++ ys) ≡ ids xs ++ ids ys
ids-append [] ys = refl
ids-append (x ∷ xs) ys = ap (x.id ∷◌) (ids-append xs ys)

pub ids-insert_at :
    (xs : List BopomofoPos) (i : ℕ) (e : BopomofoPos)
    → ids (insert_at xs i e) ≡ ids (take i xs) ++ (e.id ∷ [] ++ ids (drop i xs))
ids-insert_at xs zero e = refl
ids-insert_at [] (suc i) e = refl
ids-insert_at (x ∷ xs) (suc i) e = ap (x.id ∷◌) (ids-insert_at xs i e)

pub ids-take-drop : (xs : List BopomofoPos) (i : ℕ) → ids xs ≡ ids (take i xs) ++ ids (drop i xs)
ids-take-drop xs zero = refl
ids-take-drop [] (suc i) = refl
ids-take-drop (x ∷ xs) (suc i) = ap (x.id ∷◌) (ids-take-drop xs i)

pub ids-split :
    (xs : List BopomofoPos) (i : ℕ) (e : BopomofoPos)
    → get_elem? xs i ≡ some e
    → ids xs ≡ ids (take i xs) ++ e.id ∷ ids (drop (suc i) xs)
ids-split [] i e h = cc
ids-split (x ∷ xs) zero e h = ground arith
ids-split (x ∷ xs) (suc i) e h = ap (x.id ∷◌) (ids-split xs i e h)

pub ids-set :
    (xs : List BopomofoPos) (i : ℕ) (old e : BopomofoPos)
    → get_elem? xs i ≡ some old
    → e.id ≡ old.id
    → ids (set xs i e) ≡ ids xs
ids-set [] i old e h k = refl
ids-set (x ∷ xs) zero old e h k = ground arith
ids-set (x ∷ xs) (suc i) old e h k = ap (x.id ∷◌) (ids-set xs i old e h k)

pub Distinct-ids-insert_at :
    (xs : List BopomofoPos) (i n : ℕ) (e : BopomofoPos)
    → Distinct (ids xs)
    → Below n (ids xs)
    → e.id ≡ n
    → Distinct (ids (insert_at xs i e))
Distinct-ids-insert_at xs i n e d b h =
    let parts = ids-take-drop xs i in
    rw (ids-insert_at xs i e) (
      Distinct-insert (ids (take i xs)) (e.id ∷ []) (ids (drop i xs)) n (rw parts at d)
        (rw parts at b) (refl, tt) (omega arith, tt))

pub Below-ids-insert_at :
    (xs : List BopomofoPos) (i n m : ℕ) (e : BopomofoPos)
    → Below n (ids xs)
    → n ≤ m
    → e.id < m
    → Below m (ids (insert_at xs i e))
Below-ids-insert_at xs zero n m e b h k = (k, Below-mono n m (ids xs) h b)
Below-ids-insert_at [] (suc i) n m e b h k = (k, tt)
Below-ids-insert_at (x ∷ xs) (suc i) n m e b h k =
    (omega (arith, b.0), Below-ids-insert_at xs i n m e b.1 h k)

pub not-contains-erase_idx :
    (xs : List BopomofoPos) (i k : ℕ)
    → contains (ids xs) k ≡ false
    → contains (ids (erase_idx xs i)) k ≡ false
not-contains-erase_idx [] i k h = refl
not-contains-erase_idx (x ∷ xs) zero k h = ground arith
not-contains-erase_idx (x ∷ xs) (suc i) k h = ground (arith, not-contains-erase_idx xs i k)

pub Distinct-ids-erase_idx :
    (xs : List BopomofoPos) (i : ℕ) → Distinct (ids xs) → Distinct (ids (erase_idx xs i))
Distinct-ids-erase_idx [] i d = tt
Distinct-ids-erase_idx (x ∷ xs) zero d = d.1
Distinct-ids-erase_idx (x ∷ xs) (suc i) d =
    (not-contains-erase_idx xs i x.id d.0, Distinct-ids-erase_idx xs i d.1)

pub Below-ids-erase_idx :
    (n : ℕ) (xs : List BopomofoPos) (i : ℕ) → Below n (ids xs) → Below n (ids (erase_idx xs i))
Below-ids-erase_idx n [] i d = tt
Below-ids-erase_idx n (x ∷ xs) zero d = d.1
Below-ids-erase_idx n (x ∷ xs) (suc i) d = (d.0, Below-ids-erase_idx n xs i d.1)

-- The ids of new literals: consecutive from `key`, without wrap-around.
pub record Consecutive (key : ℕ) (text : List ℕ) (es : List BopomofoPos) : Type 0 where
  pub distinct : Distinct (ids es)
  pub from : From key (ids es)
  pub below : Below (key + length text) (ids es)
  pub after : next_id_after key text ≡ key + length text

pub literal_entry-id : (manual : Bool) (key ch : ℕ) → (literal_entry manual key ch).id ≡ key
unfolding literal_entry set_chosen_candidate
literal_entry-id manual key ch = refl

pub literal_entries-Consecutive :
    (manual : Bool) (key : ℕ) (text : List ℕ)
    → key + length text < u64_mod
    → Consecutive key text (literal_entries manual key text)
unfolding literal_entries next_id_after literal_entry set_chosen_candidate
literal_entries-Consecutive manual key [] h = ground arith
literal_entries-Consecutive manual key (ch ∷ text) h =
    let step : next64 key ≡ key + 1 = next64-eq key (omega arith) in
    let ih = literal_entries-Consecutive manual (next64 key) text (omega (arith, step)) in
    let rest = ids (literal_entries manual (next64 key) text) in
    record {
      distinct =
          (not-contains-From (next64 key) key rest ih.from (omega (arith, step)), ih.distinct);
      from = (omega arith, From-mono key (next64 key) rest (omega (arith, step)) ih.from);
      below = (
        omega arith,
        Below-mono (next64 key + length text) (key + length (ch ∷ text)) rest (omega (arith, step))
            ih.below,
      );
      after = omega (arith, step, ih.after);
    }

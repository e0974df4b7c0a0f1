-- ===== src/Map.antt =====
-- `std::unordered_map`: `find`, `operator[]=`, `erase`, `empty` and the walk over its entries. The
-- order of the walk is unspecified in C++; here it is that of a list that clients do not see.
use cpp_chat_server.Prelude.{
  ◌≡◌, ◌≢◌, ◌↔◌, ◌⊎◌, inl, inr, refl, Bool, true, false, Option, none, some, List, [], ◌∷◌, arith,
  KeyEq, ◌==◌, if◌then◌else◌,
}

-- No entry of a list has the key `k`.
abbrev Fresh {ℓ κ} : {K : Type ℓ} {V : Type κ} → K → List (K × V) → Type ℓ
Fresh k [] = Unit
Fresh k ((j, _) ∷ l) = (j ≢ k) × Fresh k l

-- Each key stands once.
abbrev Distinct {ℓ κ} : {K : Type ℓ} {V : Type κ} → List (K × V) → Type ℓ
Distinct [] = Unit
Distinct ((k, _) ∷ l) = Fresh k l × Distinct l

pub record Map {ℓ κ} (K : Type ℓ) (V : Type κ) : Type (ℓ ⊔ κ) where
  entries : List (K × V)
  distinct : Distinct entries

module _ {ℓ κ} {K : Type ℓ} {V : Type κ} where
  pub empty : Map K V
  empty = record { entries = []; distinct = tt }

  is_nil : List (K × V) → Bool
  is_nil [] = true
  is_nil (_ ∷ _) = false

  -- m.empty()
  pub is_empty : Map K V → Bool
  unfolding is_nil
  is_empty m = is_nil m.entries

  -- `for (auto& pair : m)`
  pub to_list : Map K V → List (K × V)
  to_list m = m.entries

module _ {ℓ κ} {K : Type ℓ} {V : Type κ} ⦃e : KeyEq K⦄ where
  find_in : K → List (K × V) → Option V
  find_in k [] = none
  find_in k ((j, v) ∷ l) = if j == k then some v else find_in k l

  erased_from : K → List (K × V) → List (K × V)
  erased_from k [] = []
  erased_from k (entry ∷ l) =
      let others = erased_from k l in
      let (j, v) = entry in if j == k then others else (j, v) ∷ others

  erased_from-Fresh : (i k : K) (l : List (K × V)) → Fresh i l → Fresh i (erased_from k l)
  unfolding erased_from
  erased_from-Fresh i k [] h = tt
  erased_from-Fresh i k ((j, v) ∷ l) h = ground (arith, erased_from-Fresh i k l h.1)

  erased_from-Distinct : (k : K) (l : List (K × V)) → Distinct l → Distinct (erased_from k l)
  unfolding erased_from
  erased_from-Distinct k [] h = tt
  erased_from-Distinct k ((j, v) ∷ l) h =
      ground (arith, erased_from-Distinct k l h.1, erased_from-Fresh j k l h.0)

  Fresh-erased_from : (k : K) (l : List (K × V)) → Fresh k (erased_from k l)
  unfolding erased_from
  Fresh-erased_from k [] = tt
  Fresh-erased_from k ((j, v) ∷ l) = ground (arith, Fresh-erased_from k l, e.same_key_iff j k)

  find_in-Fresh : (k : K) (l : List (K × V)) → Fresh k l → find_in k l ≡ none
  unfolding find_in
  find_in-Fresh k [] h = refl
  find_in-Fresh k ((j, v) ∷ l) h = ground (arith, e.same_key_iff j k, find_in-Fresh k l h.1)

  -- m.find(k), `none` for m.end()
  pub get : Map K V → K → Option V
  unfolding find_in
  get m k = find_in k m.entries

  -- m.erase(k)
  pub erase : Map K V → K → Map K V
  unfolding erased_from
  erase m k = record {
    entries = erased_from k m.entries;
    distinct = erased_from-Distinct k m.entries m.distinct;
  }

  -- m[k] = v
  pub put : Map K V → K → V → Map K V
  unfolding erased_from
  put m k v = record {
    entries = (k, v) ∷ erased_from k m.entries;
    distinct = (Fresh-erased_from k m.entries, erased_from-Distinct k m.entries m.distinct);
  }

  find_in-erased_from :
      (k j : K) (l : List (K × V))
      → find_in j (erased_from k l) ≡ (if k == j then none else find_in j l)
  unfolding find_in erased_from
  find_in-erased_from k j [] = ground arith
  find_in-erased_from k j ((i, v) ∷ l) =
      ground (
        arith,
        find_in-erased_from k j l,
        e.same_key_iff i k,
        e.same_key_iff i j,
        e.same_key_iff k j,
      )

  pub get-erase : (m : Map K V) (k j : K) → get (erase m k) j ≡ (if k == j then none else get m j)
  unfolding get erase
  get-erase m k j = find_in-erased_from k j m.entries

  pub get-put :
      (m : Map K V) (k j : K) (v : V) → get (put m k v) j ≡ (if k == j then some v else get m j)
  unfolding get put
  get-put m k j v = ground (arith, find_in-erased_from k j m.entries)

  pub get-empty : (k : K) → get (empty {V = V}) k ≡ none
  unfolding get empty
  get-empty k = refl

  nonempty_of_lookup : (k : K) (v : V) (l : List (K × V)) → find_in k l ≡ some v → is_nil l ≡ false
  unfolding find_in is_nil
  nonempty_of_lookup k v [] h = cc
  nonempty_of_lookup k v (x ∷ l) h = refl

  -- A map that has an entry is not empty.
  pub is_empty_of_get : (m : Map K V) (k : K) (v : V) → get m k ≡ some v → is_empty m ≡ false
  unfolding get is_empty
  is_empty_of_get m k v h = nonempty_of_lookup k v m.entries h

  get_of_nil : (k : K) (l : List (K × V)) → is_nil l ≡ true → find_in k l ≡ none
  unfolding find_in is_nil
  get_of_nil k [] h = refl
  get_of_nil k (x ∷ l) h = cc

  -- An empty map has no entry.
  pub get_of_is_empty : (m : Map K V) (k : K) → is_empty m ≡ true → get m k ≡ none
  unfolding get is_empty
  get_of_is_empty m k h = get_of_nil k m.entries h

  pub is_empty-put : (m : Map K V) (k : K) (v : V) → is_empty (put m k v) ≡ false
  unfolding put is_empty
  is_empty-put m k v = refl

-- Whether a walk over a list meets an entry.
module _ {K V : Type 0} where
  abbrev pub Lists : K → V → List (K × V) → Type 0
  Lists k v [] = ⊥
  Lists k v ((j, w) ∷ l) = ((j ≡ k) × (w ≡ v)) ⊎ Lists k v l

module _ {K V : Type 0} ⦃e : KeyEq K⦄ where
  lookup_of_Lists :
      (k : K) (v : V) (l : List (K × V)) → Distinct l → Lists k v l → find_in k l ≡ some v
  unfolding find_in
  lookup_of_Lists k v [] d h = absurd h
  lookup_of_Lists k v ((j, w) ∷ l) d (inl (p, q)) = ground (arith, e.same_key_iff j k)
  lookup_of_Lists k v ((j, w) ∷ l) d (inr h) =
      ground (arith, e.same_key_iff j k, lookup_of_Lists k v l d.1 h, find_in-Fresh j l d.0)

  Lists-of_lookup : (k : K) (v : V) (l : List (K × V)) → find_in k l ≡ some v → Lists k v l
  unfolding find_in
  Lists-of_lookup k v [] h = cc
  Lists-of_lookup k v ((j, w) ∷ l) h = ground (arith, e.same_key_iff j k, Lists-of_lookup k v l)

  -- A walk over the map meets the entries that `find` finds, and no others.
  pub Lists-iff-get : (m : Map K V) (k : K) (v : V) → Lists k v (to_list m) ↔ (get m k ≡ some v)
  unfolding to_list get
  Lists-iff-get m k v = (lookup_of_Lists k v m.entries m.distinct, Lists-of_lookup k v m.entries)

pub ruleset map_laws = (get-empty, get-erase, get-put, is_empty-put)

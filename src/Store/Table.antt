-- ===== src/Store/Table.antt =====
-- A redb table: entries in the order of their keys. The values are not encoded: serde's round trip
-- is taken for granted, and so is that every call of redb succeeds.
use bilive_rec.Prelude.{
  ◌≡◌, refl, ◌↔◌, ◌≢◌, Bool, true, Option, none, some, List, [], ◌∷◌, arith, if◌then◌else◌,
  Bool-cases, inl, inr, some_inj,
}
use mathlib.Core.Path.{subst₂}

-- What a table asks of its keys: equality and order.
pub record Key {ℓ} (K : Type ℓ) : Type ℓ where
  pub beq : K → K → Bool
  pub blt : K → K → Bool
  pub beq_iff : (a b : K) → (beq a b ≡ true) ↔ (a ≡ b)

abbrev pub Table {ℓ} : Type ℓ → Type ℓ → Type ℓ
Table K V = List (K × V)

module _ {ℓ} {K V : Type ℓ} where
  -- decode_all
  abbrev pub values : Table K V → List V
  values [] = []
  values ((k, v) ∷ m) = v ∷ values m

  -- A property of every entry.
  abbrev pub Each : (K → V → Type 0) → Table K V → Type 0
  Each P [] = Unit
  Each P ((k, v) ∷ m) = P k v × Each P m

module _ {ℓ} {K V : Type ℓ} ⦃e : Key K⦄ where
  -- Table::get
  unfoldable pub get : Table K V → K → Option V
  get [] k = none
  get ((j, v) ∷ m) k = if e.beq j k then some v else get m k

  -- Table::insert: replaces the value of a key that is there, and keeps the order.
  unfoldable pub put : K → V → Table K V → Table K V
  put k v [] = (k, v) ∷ []
  put k v ((j, w) ∷ m) =
      if e.beq j k
      then (k, v) ∷ m
      else if e.blt k j
      then (k, v) ∷ (j, w) ∷ m
      else (j, w) ∷ put k v m

  pub get-put :
      (k : K) (v : V) (m : Table K V) (j : K)
      → get (put k v m) j ≡ (if e.beq k j then some v else get m j)
  unfolding get put
  get-put k v [] j = refl
  get-put k v ((i, w) ∷ m) j =
      ground (arith, e.beq_iff i k, e.beq_iff k j, e.beq_iff i j, get-put k v m j)

  pub get-put_self : (k : K) (v : V) (m : Table K V) → get (put k v m) k ≡ some v
  get-put_self k v m = ground (arith, get-put k v m k, (e.beq_iff k k).1 refl)

  pub get-put_ne : (k : K) (v : V) (m : Table K V) (j : K) → k ≢ j → get (put k v m) j ≡ get m j
  get-put_ne k v m j h = ground (arith, get-put k v m j, e.beq_iff k j)

  -- An entry that is put keeps a property of all entries, if it has it.
  pub Each-put :
      (P : K → V → Type 0) (k : K) (v : V) (m : Table K V) → P k v → Each P m → Each P (put k v m)
  unfolding put
  Each-put P k v [] h a = (h, tt)
  Each-put P k v ((j, w) ∷ m) h a = ground (arith, Each-put P k v m h a.1)

  pub Each-get :
      (P : K → V → Type 0) (k : K) {v : V} (m : Table K V) → Each P m → get m k ≡ some v → P k v
  unfolding get
  Each-get P k [] a g = cc
  Each-get P k {v} ((j, w) ∷ m) a g = elim (Bool-cases (e.beq j k)) [
    | inl same ↦ subst₂ P ((e.beq_iff j k).0 same) (some_inj (rw same at g)) a.0
    | inr other ↦ Each-get P k m a.1 (rw other at g)
  ]

-- ===== src/Service/Map.antt =====
-- `std::unordered_map` as an association list, for Service/src/endpoints/endpointRegistry.cpp. The
-- container leaves the order of its entries open; here a new entry stands in front.
use text.Mathlib.Text.{◌==◌ as str_eq}
use text.Mathlib.TextEquality.{eq_iff}
use vision_runtime.Prelude.{
  ℕ, String, Bool, true, false, Option, none, some, List, [], ◌∷◌, ◌==◌, ==_iff, ◌≡◌, ◌↔◌, refl,
  is_some, map, ◌&&◌, ◌||◌, if◌then◌else◌, arith,
}

-- What a key type of the container has: an equality test.
pub record Key {ℓ} (K : Type ℓ) : Type ℓ where
  pub same : K → K → Bool
  pub same_iff : (a b : K) → (same a b ≡ true) ↔ (a ≡ b)

instance abbrev pub string_key : Key String
string_key = record { same = str_eq; same_iff = eq_iff }

instance abbrev pub token_key : Key ℕ
token_key = record { same = ◌==◌; same_iff = ==_iff }

module _ {ℓ κ} {K : Type ℓ} {V : Type κ} ⦃key : Key K⦄ where
  abbrev pub find : K → List (K × V) → Option V
  find k [] = none
  find k ((j, v) ∷ m) = let rest = find k m in if key.same k j then some v else rest

  abbrev pub has_key : K → List (K × V) → Bool
  has_key k m = is_some (find k m)

  -- `emplace`: an entry that is there stays.
  unfoldable pub emplace : K → V → List (K × V) → List (K × V)
  emplace k v m = if has_key k m then m else (k, v) ∷ m

  unfoldable pub erase_key : K → List (K × V) → List (K × V)
  erase_key k [] = []
  erase_key k ((j, v) ∷ m) =
      let rest = erase_key k m in if key.same k j then rest else (j, v) ∷ rest

  -- A change of the value that `find` points at.
  unfoldable pub update : K → (V → V) → List (K × V) → List (K × V)
  update k f [] = []
  update k f ((j, v) ∷ m) =
      let rest = update k f m in if key.same k j then (j, f v) ∷ m else (j, v) ∷ rest

  abbrev pub values : List (K × V) → List V
  values [] = []
  values ((j, v) ∷ m) = v ∷ values m

  pub find-update_self :
      (k : K) (f : V → V) (m : List (K × V)) {v : V}
      → find k m ≡ some v
      → find k (update k f m) ≡ some (f v)
  unfolding update
  find-update_self k f [] e = cc
  find-update_self k f ((j, v) ∷ m) {v = w} e = ground (arith, find-update_self k f m {v = w})

  -- A change of one value leaves the keys as they are.
  pub has_key-update :
      (i k : K) (f : V → V) (m : List (K × V)) → has_key i (update k f m) ≡ has_key i m
  unfolding update
  has_key-update i k f [] = refl
  has_key-update i k f ((j, v) ∷ m) = ground (arith, has_key-update i k f m)

  pub has_key-map :
      (i : K) (f : V → V) (m : List (K × V)) → has_key i (map (λ e. (e.0, f (e.1))) m) ≡ has_key i m
  has_key-map i f [] = refl
  has_key-map i f ((j, v) ∷ m) = ground (arith, has_key-map i f m)

  pub has_key-emplace :
      (i k : K) (v : V) (m : List (K × V))
      → has_key k m ≡ false
      → has_key i (emplace k v m) ≡ (key.same i k || has_key i m)
  unfolding emplace
  has_key-emplace i k v m n = ground arith

  pub has_key-erase_le :
      (i k : K) (m : List (K × V)) → has_key i (erase_key k m) ≡ true → has_key i m ≡ true
  unfolding erase_key
  has_key-erase_le i k [] e = e
  has_key-erase_le i k ((j, v) ∷ m) e = ground (arith, has_key-erase_le i k m)

  -- A test that every value of a map passes.
  abbrev pub all_values : (V → Bool) → List (K × V) → Bool
  all_values test [] = true
  all_values test ((j, v) ∷ m) = test v && all_values test m

  pub all_values-find :
      (test : V → Bool) (k : K) (m : List (K × V)) {v : V}
      → all_values test m ≡ true
      → find k m ≡ some v
      → test v ≡ true
  all_values-find test k [] h e = cc
  all_values-find test k ((j, v) ∷ m) {v = w} h e = ground (arith, all_values-find test k m {v = w})

  pub all_values-emplace :
      (test : V → Bool) (k : K) (v : V) (m : List (K × V))
      → test v ≡ true
      → all_values test m ≡ true
      → all_values test (emplace k v m) ≡ true
  unfolding emplace
  all_values-emplace test k v m t h = ground arith

  pub all_values-erase :
      (test : V → Bool) (k : K) (m : List (K × V))
      → all_values test m ≡ true
      → all_values test (erase_key k m) ≡ true
  unfolding erase_key
  all_values-erase test k [] h = refl
  all_values-erase test k ((j, v) ∷ m) h = ground (arith, all_values-erase test k m)

  pub all_values-update :
      (test : V → Bool) (k : K) (f : V → V) (m : List (K × V))
      → ((v : V) → test (f v) ≡ test v)
      → all_values test (update k f m) ≡ all_values test m
  unfolding update
  all_values-update test k f [] same = refl
  all_values-update test k f ((j, v) ∷ m) same =
      ground (arith, all_values-update test k f m same, same v)

  pub all_values-map :
      (test : V → Bool) (f : V → V) (m : List (K × V))
      → ((v : V) → test (f v) ≡ test v)
      → all_values test (map (λ e. (e.0, f (e.1))) m) ≡ all_values test m
  all_values-map test f [] same = refl
  all_values-map test f ((j, v) ∷ m) same = rw (same v, all_values-map test f m same) refl

-- ===== src/Base/Keyed.antt =====
-- Lists of entries with a number as their key: a hash or a sorted set that is read through its
-- keys. `put_key` replaces the entry with that key where it stands, and adds a new one at the end.
use Prim.Native.Nat.{ℕ}
use mathlib.Core.Bool.{Bool, true, false}
use mathlib.Core.Option.{Option, none, some}
use mathlib.Core.Path.{◌≡◌, refl}
use mathlib.Core.List.{List, [], ◌∷◌}
use native.Mathlib.Omega.{arith}
use Prim.Native.String.{String}
use text.Mathlib.Text.{◌==◌ as str_eq}
use tasker.Base.Tests.{◌==◌, if◌then◌else◌}

abbrev pub is_some {ℓ} : {A : Type ℓ} → Option A → Bool
is_some none = false
is_some (some a) = true

module _ {ℓ} {A : Type ℓ} (key : A → ℕ) where
  unfoldable pub get_key : ℕ → List A → Option A
  get_key k [] = none
  get_key k (x ∷ xs) = if key x == k then some x else get_key k xs

  unfoldable pub put_key : A → List A → List A
  put_key a [] = a ∷ []
  put_key a (x ∷ xs) = if key x == key a then a ∷ xs else x ∷ put_key a xs

  unfoldable pub del_key : ℕ → List A → List A
  del_key k [] = []
  del_key k (x ∷ xs) = if key x == k then del_key k xs else x ∷ del_key k xs

  pub get_key-put_key :
      (j : ℕ) (a : A) (xs : List A)
      → get_key j (put_key a xs) ≡ (if key a == j then some a else get_key j xs)
  unfolding get_key put_key
  get_key-put_key j a [] = refl
  get_key-put_key j a (x ∷ xs) = ground (arith, get_key-put_key j a xs)

  pub get_key-del_key :
      (j k : ℕ) (xs : List A) → get_key j (del_key k xs) ≡ (if k == j then none else get_key j xs)
  unfolding get_key del_key
  get_key-del_key j k [] = ground arith
  get_key-del_key j k (x ∷ xs) = ground (arith, get_key-del_key j k xs)

  -- What is found under a key has that key.
  pub get_key-key : (j : ℕ) (xs : List A) (a : A) → get_key j xs ≡ some a → key a ≡ j
  unfolding get_key
  get_key-key j [] a h = cc
  get_key-key j (x ∷ xs) a h = ground (arith, get_key-key j xs a)

-- A map from texts, changed at one text.
abbrev pub change {ℓ} : {A : Type ℓ} → String → A → (String → A) → String → A
change k v f j = if str_eq k j then v else f j

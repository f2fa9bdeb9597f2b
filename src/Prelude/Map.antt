-- ===== src/Prelude/Map.antt =====
-- `std::map` with numbers for keys: entries in the order of their keys. `insert` keeps an entry that
-- is there, as `std::map::insert` does.
use game_server.Prelude.Tests.{◌==◌, ltb, if◌then◌else◌}
use Prim.Native.Nat.{ℕ}
use mathlib.Core.Path.{◌≡◌, refl}
use mathlib.Core.Option.{Option, none, some}
use mathlib.Core.List.{List, [], ◌∷◌}
use native.Mathlib.Omega.{arith}

abbrev pub Map {ℓ} : Type ℓ → Type ℓ
Map V = List (ℕ × V)

module _ {ℓ} {V : Type ℓ} where
  -- `find`, with `end()` for `none`
  unfoldable pub find : ℕ → Map V → Option V
  find k [] = none
  find k ((j, v) ∷ m) = if j == k then some v else find k m

  -- A new entry at its place.
  unfoldable pub place : ℕ → V → Map V → Map V
  place k v [] = (k, v) ∷ []
  place k v ((j, w) ∷ m) =
      let rest = place k v m in if ltb k j then (k, v) ∷ (j, w) ∷ m else (j, w) ∷ rest

  placed : ℕ → V → Map V → Option V → Map V
  placed k v m none = place k v m
  placed k v m (some w) = m

  -- `insert`
  unfoldable pub insert : ℕ → V → Map V → Map V
  unfolding placed
  insert k v m = placed k v m (find k m)

  -- `erase`, by a key or by the iterator that `find` gave
  unfoldable pub erase : ℕ → Map V → Map V
  erase k [] = []
  erase k ((j, v) ∷ m) = let rest = erase k m in if j == k then rest else (j, v) ∷ rest

  pub find-erase : (k j : ℕ) (m : Map V) → find j (erase k m) ≡ (if k == j then none else find j m)
  unfolding find erase
  find-erase k j [] = ground arith
  find-erase k j ((i, v) ∷ m) = ground (arith, find-erase k j m)

  find-place :
      (k j : ℕ) (v : V) (m : Map V)
      → find k m ≡ none
      → find j (place k v m) ≡ (if k == j then some v else find j m)
  unfolding find place
  find-place k j v [] h = refl
  find-place k j v ((i, w) ∷ m) h = ground (arith, find-place k j v m)

  -- A new key gets the value; a key that is there keeps its own.
  pub find-insert_new :
      (k j : ℕ) (v : V) (m : Map V)
      → find k m ≡ none
      → find j (insert k v m) ≡ (if k == j then some v else find j m)
  unfolding insert
  find-insert_new k j v m h = rw (h, placed) (find-place k j v m h)

  pub insert_old : (k : ℕ) (v w : V) (m : Map V) → find k m ≡ some w → insert k v m ≡ m
  unfolding insert
  insert_old k v w m h = rw (h, placed)

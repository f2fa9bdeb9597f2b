-- ===== src/Connector/Pool.antt =====
-- network/connector.cpp, `ConnectorPool`. A `Connector*` is a number, and `status` says what it points to.
use game_server.Prelude.{
  ℕ, ◌+◌, ◌-◌, ◌%◌, ◌^◌, ◌≤◌, ◌<◌, ◌≡◌, ◌≢◌, refl, sym, ap, ◌∙◌, List, [], ◌∷◌, ◌++◌, Option, none,
  some, ◌>>=◌, Bool, true, false, Bool-cases, ◌||◌, inl, inr, ltb, ◌==◌, if◌then◌else◌, arith,
}
use game_server.Prelude.Map.{Map, find, insert, erase, find-erase, find-insert_new}
use game_server.Prelude.Int.{ℤ}
use game_server.Connector.{Objects, Connector, new_connector, create, close}

-- The key of the entry that `AddConnector` inserts: an `uint64_t` made an `int32_t` and then an `uint64_t`
-- again.
unfoldable pub key_of : ℕ → ℕ
key_of seq = let low = seq % 2 ^ 32 in if ltb low (2 ^ 31) then low else low + (2 ^ 64 - 2 ^ 32)

added : Map ℕ → ℕ → ℕ → Option ℕ → Bool × Map ℕ
unfolding key_of
added pool seq r (some old) = (false, pool)
added pool seq r none = (true, insert (key_of seq) r pool)

-- `AddConnector` for the connector r, whose number is seq
unfoldable pub add_connector : Map ℕ → ℕ → ℕ → Bool × Map ℕ
unfolding added
add_connector pool seq r = added pool seq r (find seq pool)

closed_one : Map ℕ → ℕ → Option ℕ → Bool × Map ℕ × List ℕ
closed_one pool seq none = (false, pool, [])
closed_one pool seq (some r) = (true, erase seq pool, r ∷ [])

-- `CloseConnector`; the list holds what it deletes.
unfoldable pub close_connector : Map ℕ → ℕ → Bool × Map ℕ × List ℕ
unfolding closed_one
close_connector pool seq = closed_one pool seq (find seq pool)

-- `ProcessAliveConnectors`
unfoldable pub process_alive_connectors : (ℕ → Bool) → Map ℕ → List ℕ → List ℕ
process_alive_connectors is_alive [] queue = queue
process_alive_connectors is_alive ((seq, r) ∷ pool) queue =
    process_alive_connectors is_alive pool (if is_alive r then queue ++ r ∷ [] else queue)

-- `ProcessClosedConnectors`; `none` is the use of an iterator that has been erased.
unfoldable pub process_closed_connectors : (ℕ → Bool) → Map ℕ → Option (Map ℕ)
process_closed_connectors is_closed [] = some []
process_closed_connectors is_closed ((seq, r) ∷ pool) =
    if is_closed r
    then none
    else (process_closed_connectors is_closed pool >>= λ pool'. some ((seq, r) ∷ pool'))

-- `NewConnector`: the connector r joins the pool if `Create` succeeds, and is deleted if not, as NULL is
-- returned.
unfoldable pub new_pooled_connector :
    Objects → Map ℕ → ℕ → ℤ → ℕ → Bool → Option Connector × Objects × Map ℕ
new_pooled_connector o pool r fd seq allocated =
    let (ok, o', c) = create o new_connector fd seq allocated in
    if ok then (some c, o', (add_connector pool c.client_seq r).1) else (none, (close o' c).0, pool)

-- A connector with a number below 2 ^ 31 that is not in the pool can be closed after it was added: it is
-- found, taken out and deleted, and every other number finds what it found before.
pub close_connector-add_connector :
    (pool : Map ℕ) (seq r other : ℕ)
    → seq < 2 ^ 31
    → find seq pool ≡ none
    → let (ok, pool') = add_connector pool seq r in
      let (found, pool'', deleted) = close_connector pool' seq in
      (ok ≡ true) × (found ≡ true) × (deleted ≡ r ∷ []) × (find other pool'' ≡ find other pool)
unfolding add_connector close_connector added closed_one key_of
close_connector-add_connector pool seq r other l h =
    rw (h) (rw (small) (rw (there) (refl, refl, refl, same)))
  where
    small : key_of seq ≡ seq
    small = ground arith

    there : find seq (insert seq r pool) ≡ some r
    there = ground (arith, find-insert_new seq seq r pool h)

    same : find other (erase seq (insert seq r pool)) ≡ find other pool
    same =
        find-erase seq other (insert seq r pool)
        ∙ (rw (find-insert_new seq other r pool h) (elim (Bool-cases (seq == other)) [
          | inl e ↦ rw (e) (sym h ∙ ap (λ (i : ℕ). find i pool) (ground (arith, e)))
          | inr e ↦ rw (e) refl
        ]))

-- For a number from 2 ^ 31 to 2 ^ 47 that is not in the pool, and where the number that its low 32 bits
-- stand for is not in the pool either: AddConnector stores the connector at the latter; closing by
-- the connector's own number fails, and the connector stays.
pub close_connector-lost :
    (pool : Map ℕ) (seq r : ℕ)
    → 2 ^ 31 ≤ seq
    → seq < 2 ^ 47
    → find seq pool ≡ none
    → find (key_of seq) pool ≡ none
    → let (ok, pool') = add_connector pool seq r in
      (ok ≡ true)
      × (find (key_of seq) pool' ≡ some r)
      × (close_connector pool' seq ≡ (false, pool', []))
unfolding add_connector close_connector added closed_one key_of
close_connector-lost pool seq r m l h k = rw (h) (refl, there, rw (lost) refl)
  where
    there : find (key_of seq) (insert (key_of seq) r pool) ≡ some r
    there = ground (arith, find-insert_new (key_of seq) (key_of seq) r pool k)

    differs : key_of seq ≢ seq
    differs = ground (arith, m, l)

    lost : find seq (insert (key_of seq) r pool) ≡ none
    lost = ground (arith, find-insert_new (key_of seq) seq r pool k, h, differs)

-- Whether some connector of the pool has been closed
abbrev pub any_closed : (ℕ → Bool) → Map ℕ → Bool
any_closed is_closed [] = false
any_closed is_closed ((seq, r) ∷ pool) = is_closed r || any_closed is_closed pool

-- `ProcessClosedConnectors` leaves a pool in which no connector is closed as it is, and uses an iterator
-- that it has erased as soon as one is.
pub process_closed_connectors_lem :
    (is_closed : ℕ → Bool) (pool : Map ℕ)
    → process_closed_connectors is_closed pool
      ≡ (if any_closed is_closed pool then none else some pool)
unfolding process_closed_connectors
process_closed_connectors_lem is_closed [] = refl
process_closed_connectors_lem is_closed ((seq, r) ∷ pool) = elim (Bool-cases (is_closed r)) [
  | inl e ↦ rw (e) refl
  | inr e ↦
      rw (e)
        (rw (process_closed_connectors_lem is_closed pool) (either (any_closed is_closed pool)))
]
  where
    either :
        (b : Bool)
        → ((if b then none else some pool) >>= λ pool'. some ((seq, r) ∷ pool'))
          ≡ (if b then none else some ((seq, r) ∷ pool))
    either true = refl
    either false = refl

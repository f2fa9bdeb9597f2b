-- ===== src/Uuid.antt =====
-- common/utils/uuid.h, `SnowFlakeUUID`: numbers for clients from the clock.
pub mod Distinct
pub mod Reading
mod Examples
use game_server.Prelude.{
  ℕ, zero, suc, ◌+◌, ◌*◌, ◌%◌, ◌^◌, Option, none, some, ◌>>=◌, List, [], ◌∷◌, ◌==◌, leb,
  if◌then◌else◌,
}

pub record SnowFlake : Type 0 where
  pub host_id : ℕ
  pub game_svr_id : ℕ
  pub sequence_id : ℕ
  pub last_timestamp : ℕ

-- `Init`, on the object that the constructor gives
unfoldable pub init : ℕ → ℕ → SnowFlake
init host_id game_svr_id = record {
  host_id = host_id;
  game_svr_id = game_svr_id;
  sequence_id = 0;
  last_timestamp = 0;
}

-- `_WaitNextTimestamp`: the clock's reading k is the next one. It gives the timestamp and the number of
-- the reading behind it; `none` is no fuel.
unfoldable pub wait_next_timestamp : ℕ → (ℕ → ℕ) → ℕ → ℕ → Option (ℕ × ℕ)
wait_next_timestamp zero clock k last = none
wait_next_timestamp (suc fuel) clock k last =
    let rest = wait_next_timestamp fuel clock (k + 1) last in
    if leb (clock k) last then rest else some (clock k, k + 1)

-- The bit fields of the result lie apart, so that `|` is a sum: `& 0x1FFFFFF`, `& 0x1F` and `& 0xFFF`
-- are remainders, and `<<` multiplies.
unfoldable pub seq_id : SnowFlake → ℕ
seq_id s =
    (s.last_timestamp % 2 ^ 25) * 2 ^ 22
    + (s.host_id % 32) * 2 ^ 17
    + (s.game_svr_id % 32) * 2 ^ 12
    + s.sequence_id % 4096

-- The end of `GenerateSeqID`: the timestamp is kept, and the fields make the number.
stamped : SnowFlake → ℕ → ℕ → ℕ → ℕ × SnowFlake × ℕ
unfolding seq_id
stamped s sequence_id now k =
    let s' = record s { sequence_id = sequence_id; last_timestamp = now } in (seq_id s', s', k)

-- A second number in the same microsecond
next_in_sequence : ℕ → (ℕ → ℕ) → SnowFlake → ℕ → ℕ → Option (ℕ × SnowFlake × ℕ)
unfolding stamped
next_in_sequence fuel clock s k zero =
    wait_next_timestamp fuel clock k s.last_timestamp >>= λ (now, k'). some (stamped s 0 now k')
next_in_sequence fuel clock s k (suc n) = some (stamped s (suc n) (s.last_timestamp) k)

-- `GenerateSeqID`, whose first reading of the clock is k; the number, the state and the next reading.
unfoldable pub generate_seq_id : ℕ → (ℕ → ℕ) → SnowFlake → ℕ → Option (ℕ × SnowFlake × ℕ)
unfolding next_in_sequence stamped
generate_seq_id fuel clock s k =
    if s.last_timestamp == clock k
    then next_in_sequence fuel clock s (k + 1) ((s.sequence_id + 1) % 4096)
    else some (stamped s 0 (clock k) (k + 1))

-- Calls one behind the other, and the numbers that they give
unfoldable pub generate_seq_ids : ℕ → ℕ → (ℕ → ℕ) → SnowFlake → ℕ → Option (List ℕ × SnowFlake × ℕ)
generate_seq_ids zero fuel clock s k = some ([], s, k)
generate_seq_ids (suc n) fuel clock s k = do
  (id, s', k') ← generate_seq_id fuel clock s k
  (ids, s'', k'') ← generate_seq_ids n fuel clock s' k'
  some (id ∷ ids, s'', k'')

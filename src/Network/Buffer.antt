-- ===== src/Network/Buffer.antt =====
-- network/context.h: `ST_ClientContextBuffer`, the bytes that a client has sent and that are not yet
-- unpacked. Sizes are `int32_t` in the source and never negative.
use game_server.Prelude.{
  ℕ, ◌+◌, ◌∙◌, ap, sym, ◌≡◌, ◌≤◌, append_assoc, length-append, length-take, length-drop,
  take-append, arith, List, ◌++◌, ltb, if◌then◌else◌, length, take, drop, replicate,
  length-replicate,
}

-- `sizeof(m_chBuffer)`, ten times `NETWORK_PACKET_BUFFER_READ_SIZE`
abbrev pub capacity : ℕ
capacity = 102400

pub record ClientBuffer : Type 0 where
  pub client_seq : ℕ
  pub client_fd : ℕ
  pub client_ip : List ℕ
  pub buffer_size : ℕ
  pub buffer : List ℕ

-- `memset(…, 0, n)`
unfoldable pub zeroed : ℕ → List ℕ
zeroed n = replicate n 0

pub length-zeroed : (n : ℕ) → length (zeroed n) ≡ n
unfolding zeroed
length-zeroed n = length-replicate n 0

-- `construct()`; `NETWORK_SERVER_IP_ADDRESS_LEN` is 64.
unfoldable pub construct : ClientBuffer
construct = record {
  client_seq = 0;
  client_fd = 0;
  client_ip = replicate 64 0;
  buffer_size = 0;
  buffer = zeroed capacity;
}

-- `MoveBufferPtr`: the pointer is `offset` bytes into the buffer.
unfoldable pub move_buffer_ptr : ClientBuffer → ℕ → ℕ → ClientBuffer
move_buffer_ptr c offset left =
    if ltb 0 left
    then record c {
      buffer = take left (drop offset c.buffer) ++ drop left c.buffer;
      buffer_size = left;
    }
    else record c { buffer = zeroed capacity; buffer_size = 0 }

-- The bytes not yet unpacked.
abbrev pub pending : ClientBuffer → List ℕ
pending c = take c.buffer_size c.buffer

-- The array has its size, and the count is within it.
pub record IsSized (c : ClientBuffer) : Type 0 where
  pub whole : length c.buffer ≡ capacity
  pub within : c.buffer_size ≤ capacity

-- Bytes written behind those that count: to `m_chBuffer + m_iBufferSize`, and `m_iBufferSize` grows.
unfoldable pub append_bytes : ClientBuffer → List ℕ → ClientBuffer
append_bytes c bytes = record c {
  buffer = take c.buffer_size c.buffer ++ (bytes ++ drop (c.buffer_size + length bytes) c.buffer);
  buffer_size = c.buffer_size + length bytes;
}

module _ (c : ClientBuffer) (bytes : List ℕ) (z : IsSized c)
    (h : c.buffer_size + length bytes ≤ capacity) where
  length-pending : length (pending c) ≡ c.buffer_size
  length-pending = omega (arith, length-take c.buffer_size c.buffer, z.whole, z.within)

  pub append_bytes-IsSized : IsSized (append_bytes c bytes)
  unfolding append_bytes
  append_bytes-IsSized = record {
    whole = omega (
      arith,
      length-append (pending c) (bytes ++ drop (c.buffer_size + length bytes) c.buffer),
      length-append bytes (drop (c.buffer_size + length bytes) c.buffer),
      length-drop (c.buffer_size + length bytes) c.buffer,
      length-pending,
      z.whole,
    );
    within = h;
  }

  pub append_bytes-pending : pending (append_bytes c bytes) ≡ pending c ++ bytes
  unfolding append_bytes
  append_bytes-pending =
      ap (take (c.buffer_size + length bytes)) (sym (append_assoc (pending c) bytes behind))
      ∙ take-append (c.buffer_size + length bytes) (pending c ++ bytes) behind
          (omega (arith, length-append (pending c) bytes, length-pending))
    where
      behind : List ℕ
      behind = drop (c.buffer_size + length bytes) c.buffer

-- ===== src/Network/Examples.antt =====
-- A client's buffer with frames and the start of another, and a bad frame.
use game_server.Prelude.{ℕ, ◌≡◌, refl, List, [], ◌∷◌, ◌++◌, some, arith, ap, sym, ◌∙◌, ◌-◌, take}
use game_server.Prelude.Int.{pos, negsuc}
use game_server.Memory.{MemoryPool, new_pool}
use game_server.Memory.Ownership.{Owned-new_pool}
use game_server.Packet.{NetPacket}
use game_server.Network.Buffer.{ClientBuffer, IsSized, capacity, pending, zeroed, length-zeroed}
use game_server.Network.Framing.{code, finished, bad_body, Parsed, parse, parse_all, read_head}
use game_server.Network.Framing.Stream.{frame, frames, length-frame}
use game_server.Network.RoundTrip.{unpack_packet_to_recv_queue-frames}
use game_server.Network.Unpack.{
  Delivered, Refused, unpack_packet_to_recv_queue-delivers, unpack_packet_to_recv_queue-refuses,
}
use game_server.Network.{NetworkContext, new_context, unpack_packet_to_recv_queue}
use game_server.Wire.{pack_int, unpack_int}

-- A frame of six bytes with number 1 and body 10 20, and the first byte of the next.
abbrev one_and_a_bit : List ℕ
one_and_a_bit = 0 ∷ 6 ∷ 0 ∷ 1 ∷ 10 ∷ 20 ∷ 0 ∷ []

-- A frame with a header alone.
abbrev no_body : List ℕ
no_body = 0 ∷ 4 ∷ 0 ∷ 1 ∷ []

abbrev client_with : ℕ → List ℕ → ClientBuffer
client_with n bytes = record {
  client_seq = 7;
  client_fd = 3;
  client_ip = [];
  buffer_size = n;
  buffer = bytes ++ zeroed (capacity - n);
}

client-IsSized : IsSized (client_with 7 one_and_a_bit)
client-IsSized = record {
  whole = omega (arith, length-zeroed (capacity - 7));
  within = omega arith;
}

bad_client-IsSized : IsSized (client_with 4 no_body)
bad_client-IsSized = record {
  whole = omega (arith, length-zeroed (capacity - 4));
  within = omega arith;
}

parse_one :
    parse_all one_and_a_bit
    ≡ record { status = finished; frames = (pos 1, 10 ∷ 20 ∷ []) ∷ []; rest = 0 ∷ [] }
unfolding parse_all parse read_head unpack_int
parse_one = refl

parse_no_body : (parse_all no_body).status ≡ bad_body
unfolding parse_all parse read_head unpack_int
parse_no_body = refl

-- A size that is negative as an `int16_t` is taken for an unfinished packet.
parse_negative :
    parse_all (0x80 ∷ 0 ∷ 0 ∷ 0 ∷ [])
    ≡ record { status = finished; frames = []; rest = 0x80 ∷ 0 ∷ 0 ∷ 0 ∷ [] }
unfolding parse_all parse read_head unpack_int
parse_negative = refl

unpack_packet_to_recv_queue-delivers_example :
    (p' : MemoryPool) × (net' : NetworkContext) × (c' : ClientBuffer) × (new : List NetPacket)
    × (unpack_packet_to_recv_queue (λ k. k) (new_pool 2) new_context (client_with 7 one_and_a_bit)
        ≡ some (pos 0, p', net', c'))
    × Delivered 2
        (new_pool 2)
        new_context
        (client_with 7 one_and_a_bit)
        []
        (parse_all one_and_a_bit)
        p'
        net'
        c'
        new
unpack_packet_to_recv_queue-delivers_example =
    unpack_packet_to_recv_queue-delivers 2 (new_pool 2) new_context (client_with 7 one_and_a_bit) []
      (λ k. k) client-IsSized (omega arith) (Owned-new_pool 2)
      (ap (λ (r : Parsed). r.status) parse_one)

unpack_packet_to_recv_queue-refuses_example :
    (p' : MemoryPool) × (net' : NetworkContext) × (new : List NetPacket)
    × (unpack_packet_to_recv_queue (λ k. k) (new_pool 2) new_context (client_with 4 no_body)
        ≡ some (code (parse_all no_body).status, p', net', client_with 4 no_body))
    × Refused 2 (new_pool 2) new_context (client_with 4 no_body) [] (parse_all no_body) p' net' new
unpack_packet_to_recv_queue-refuses_example =
    unpack_packet_to_recv_queue-refuses 2 (new_pool 2) new_context (client_with 4 no_body) []
      (λ k. k) bad_client-IsSized (Owned-new_pool 2) (λ e. cc (sym parse_no_body ∙ e))

-- Two frames and the first byte of the next
two_frames :
    pending (client_with 12 (0 ∷ 6 ∷ 0 ∷ 1 ∷ 10 ∷ 20 ∷ 0 ∷ 5 ∷ 0xff ∷ 0xff ∷ 5 ∷ 0 ∷ []))
    ≡ frames ((1, 10 ∷ 20 ∷ []) ∷ (0xffff, 5 ∷ []) ∷ []) ++ take 1 (frame (1, 7 ∷ []))
unfolding frames frame pack_int
two_frames = refl

two_frames-IsSized :
    IsSized (client_with 12 (0 ∷ 6 ∷ 0 ∷ 1 ∷ 10 ∷ 20 ∷ 0 ∷ 5 ∷ 0xff ∷ 0xff ∷ 5 ∷ 0 ∷ []))
two_frames-IsSized = record {
  whole = omega (arith, length-zeroed (capacity - 12));
  within = omega arith;
}

unpack_packet_to_recv_queue-frames_example :
    let c = client_with 12 (0 ∷ 6 ∷ 0 ∷ 1 ∷ 10 ∷ 20 ∷ 0 ∷ 5 ∷ 0xff ∷ 0xff ∷ 5 ∷ 0 ∷ []) in
    (p' : MemoryPool) × (net' : NetworkContext) × (c' : ClientBuffer) × (new : List NetPacket)
    × (unpack_packet_to_recv_queue (λ k. k) (new_pool 2) new_context c ≡ some (pos 0, p', net', c'))
    × Delivered 2
        (new_pool 2)
        new_context
        c
        []
        (record {
          status = finished;
          frames = (pos 1, 10 ∷ 20 ∷ []) ∷ (negsuc 0, 5 ∷ []) ∷ [];
          rest = take 1 (frame (1, 7 ∷ []));
        })
        p'
        net'
        c'
        new
unpack_packet_to_recv_queue-frames_example =
    unpack_packet_to_recv_queue-frames 2 (new_pool 2) new_context
      (client_with 12 (0 ∷ 6 ∷ 0 ∷ 1 ∷ 10 ∷ 20 ∷ 0 ∷ 5 ∷ 0xff ∷ 0xff ∷ 5 ∷ 0 ∷ [])) [] (λ k. k)
      ((1, 10 ∷ 20 ∷ []) ∷ (0xffff, 5 ∷ []) ∷ []) (1, 7 ∷ []) 1 two_frames-IsSized (omega arith)
      (Owned-new_pool 2) (omega arith) (omega arith) (omega (arith, length-frame (1, 7 ∷ [])))
      two_frames

-- ===== src/Handlers/Libevent/Draining.antt =====
-- network/libevent/libevent_handle.cpp, `OnBufferEventRead`: the loop takes all that the `bufferevent` has
-- and that fits.
use game_server.Prelude.{
  ℕ, zero, suc, ◌-◌, ◌<◌, ◌≡◌, refl, sym, ap, ap₂, ◌∙◌, ◌⊎◌, inl, inr, List, [], ◌∷◌, ◌++◌,
  append-nil, length, take, drop, take-append-drop, length-take, Bool-cases, Bool, true, false,
  ◌==◌, arith, min, length-drop,
}
use game_server.Prelude.Int.{ℤ, pos, negsuc}
use game_server.Network.Buffer.{
  ClientBuffer, IsSized, capacity, pending, append_bytes, append_bytes-IsSized,
  append_bytes-pending,
}
use game_server.Handlers.Libevent.{read_into}

-- What libevent documents of `bufferevent_read`: it takes the first bytes, as many as there are up to n.
pub record IsReader {E : Type 0} (read : E → ℕ → List ℕ × E) (input : E → List ℕ) : Type 0 where
  pub bytes : (e : E) (n : ℕ) → (read e n).0 ≡ take n (input e)
  pub rest : (e : E) (n : ℕ) → input (read e n).1 ≡ drop n (input e)

abbrev pub is_positive : ℤ → Bool
is_positive (pos zero) = false
is_positive (pos (suc n)) = true
is_positive (negsuc n) = false

-- What one `PacketBufferRead` has done: `taken` has moved from the `bufferevent` to the buffer. If that is
-- nothing, there is nothing left or no room.
pub record Fetched {E : Type 0} (input : E → List ℕ) (c : ClientBuffer) (e : E)
    (result : ℤ × ClientBuffer × E) (taken : List ℕ) : Type 0 where
  pub split : input e ≡ taken ++ input result.2
  pub waits : pending result.1 ≡ pending c ++ taken
  pub sized : IsSized result.1
  pub same_client : (result.1.client_seq ≡ c.client_seq) × (result.1.client_fd ≡ c.client_fd)
  pub stops :
      ((is_positive result.0 ≡ true) × (0 < length taken))
      ⊎ ((is_positive result.0 ≡ false)
          × (taken ≡ [])
          × ((input result.2 ≡ []) ⊎ (result.1.buffer_size ≡ capacity)))

no_bytes : (xs : List ℕ) → length xs ≡ 0 → xs ≡ []
no_bytes [] h = refl
no_bytes (x ∷ xs) h = absurd (omega arith)

empty_or_not :
    {P : Type 0} (xs : List ℕ)
    → (length xs ≡ 0 → P)
    → ((is_positive (pos (length xs)) ≡ true) × (0 < length xs))
      ⊎ ((is_positive (pos (length xs)) ≡ false) × (xs ≡ []) × P)
empty_or_not [] p = inr (refl, refl, p refl)
empty_or_not (x ∷ xs) p = inl (ground arith, omega arith)

module _ {E : Type 0} (read : E → ℕ → List ℕ × E) (input : E → List ℕ)
    (law : IsReader read input) where
  -- A read into a buffer that has room
  module _ (c : ClientBuffer) (e : E) (z : IsSized c) (room : c.buffer_size < capacity) where
    taken : List ℕ
    taken = (read e (capacity - c.buffer_size)).0

    length-taken : length taken ≡ min (capacity - c.buffer_size) (length (input e))
    unfolding taken
    length-taken =
        ap length (law.bytes e (capacity - c.buffer_size))
        ∙ omega (arith, length-take (capacity - c.buffer_size) (input e))

    read_bytes :
        Fetched input c e
          (pos (length taken), append_bytes c taken, (read e (capacity - c.buffer_size)).1)
          taken
    unfolding taken append_bytes
    read_bytes = record {
      split =
          sym (take-append-drop (capacity - c.buffer_size) (input e))
          ∙ ap₂ ◌++◌ (sym (law.bytes e (capacity - c.buffer_size)))
              (sym (law.rest e (capacity - c.buffer_size)));
      waits = append_bytes-pending c taken z (omega (arith, length-taken));
      sized = append_bytes-IsSized c taken z (omega (arith, length-taken));
      same_client = (refl, refl);
      stops = empty_or_not taken (λ nothing. inl (
          no_bytes (input (read e (capacity - c.buffer_size)).1) (
            ap length (law.rest e (capacity - c.buffer_size))
            ∙ omega
                (arith, nothing, length-taken, length-drop (capacity - c.buffer_size) (input e)))));
    }

  pub fetched :
      (c : ClientBuffer) (e : E)
      → IsSized c
      → (taken : List ℕ) × Fetched input c e (read_into read c e) taken
  unfolding read_into taken
  fetched c e z = elim (Bool-cases (capacity - c.buffer_size == 0)) [
    | inl h ↦ rw (h) (
      [],
      record {
        split = refl;
        waits = sym (append-nil (pending c));
        sized = z;
        same_client = (refl, refl);
        stops = inr (refl, refl, inr (ground (arith, h, z.within)));
      },
    )
    | inr h ↦ rw (h) (taken c e z (ground (arith, h)), read_bytes c e z (ground (arith, h)))
  ]

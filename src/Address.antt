-- ===== src/Address.antt =====
-- network/defines.h, `ST_ServerIPInfo`: where a server listens or a connector connects.
mod Examples
use game_server.Prelude.{
  ℕ, zero, suc, ◌∷◌, Bool-cases, inl, inr, ◌+◌, ◌-◌, ◌%◌, ◌^◌, ◌≤◌, ◌<◌, ◌≡◌, refl, ap, ap₂, ◌∙◌,
  List, [], ◌++◌, length, take, take-append, append_assoc, replicate, Option, none, some, Bool,
  true, false, not, ◌||◌, ltb, if◌then◌else◌, arith,
}
use game_server.Prelude.Int.{ℤ, pos, negsuc, signed16, ltb_ℤ}

pub record ServerIpInfo : Type 0 where
  pub server_port : ℤ
  pub server_ip : List ℕ

-- `strncpy` into the 64 bytes of `m_achServerIP`: at most these many bytes, and zeros behind them
unfoldable pub copy_ip : List ℕ → List ℕ
copy_ip ip = take 64 (ip ++ replicate 64 0)

-- The comparisons; the port is promoted to an `int`.
unfoldable pub is_invalid : ℤ → Bool
is_invalid port = not (ltb_ℤ (pos 1000) port) || not (ltb_ℤ port (pos 65536))

-- `Init`, with NULL for `none`. The caller's port becomes a `short`.
unfoldable pub init : ServerIpInfo → ℕ → Option (List ℕ) → Bool × ServerIpInfo
init info port none = (false, info)
init info port (some ip) =
    let w_port = signed16 (port % 2 ^ 16) in
    if is_invalid w_port
    then (false, info)
    else (true, record { server_port = w_port; server_ip = copy_ip ip })

abbrev zeros : ℕ → List ℕ
zeros n = replicate n 0

take-replicate : (n m : ℕ) → n ≤ m → take n (zeros m) ≡ zeros n
take-replicate zero m h = refl
take-replicate (suc n) zero h = absurd (omega arith)
take-replicate (suc n) (suc m) h = ap (◌∷◌ 0) (take-replicate n m (omega arith))

take-padded :
    (n m : ℕ) (xs : List ℕ)
    → length xs ≤ n
    → n ≤ m
    → take n (xs ++ replicate m 0) ≡ xs ++ replicate (n - length xs) 0
take-padded n m [] h l = take-replicate n m l ∙ ap (λ (k : ℕ). replicate k 0) (omega arith)
take-padded zero m (x ∷ xs) h l = absurd (omega arith)
take-padded (suc n) m (x ∷ xs) h l = ap (◌∷◌ x) (
    take-padded n m xs (omega arith) (omega arith)
    ∙ ap (λ (k : ℕ). xs ++ replicate k 0) (omega arith))

port_low : (port : ℕ) → port < 2 ^ 15 → signed16 (port % 2 ^ 16) ≡ pos port
port_low port h = ground (arith, same)
  where
    same : port % 2 ^ 16 ≡ port
    same = omega arith

port_high :
    (port : ℕ) → port < 2 ^ 16 → 2 ^ 15 ≤ port → is_invalid (signed16 (port % 2 ^ 16)) ≡ true
unfolding is_invalid
port_high port l h = ground arith

port_range : (port : ℕ) → port < 2 ^ 15 → is_invalid (pos port) ≡ not (ltb 1000 port)
unfolding is_invalid
port_range port l = ground arith

-- Of the ports below 2 ^ 16, `Init` takes exactly those above 1000 and below 2 ^ 15, and refuses the others,
-- leaving the address as it was; of an address of at most 64 bytes it keeps all, with zeros behind them.
pub init_lem :
    (info : ServerIpInfo) (port : ℕ) (ip : List ℕ)
    → port < 2 ^ 16
    → length ip ≤ 64
    → init info port (some ip) ≡ (
        if ltb 1000 port
        then (if ltb port (2 ^ 15)
            then (
              true,
              record { server_port = pos port; server_ip = ip ++ replicate (64 - length ip) 0 },
            )
            else (false, info))
        else (false, info))
unfolding init copy_ip
init_lem info port ip l h = elim (Bool-cases (ltb port (2 ^ 15))) [
  | inl e ↦
      let low : port < 2 ^ 15 = ground (arith, e) in
      rw (port_low port low) (
        rw (port_range port low)
          (rw (e) (rw (take-padded 64 64 ip h (omega arith)) (switch (ltb 1000 port)))))
  | inr e ↦ rw (port_high port l (ground (arith, e))) (rw (e) (same (ltb 1000 port)))
]
  where
    switch :
        (b : Bool)
        → ◌≡◌ {A = Bool × ServerIpInfo}
            (if not b then (false, info) else (
              true,
              record { server_port = pos port; server_ip = ip ++ replicate (64 - length ip) 0 },
            ))
            (if b
              then (
                true,
                record { server_port = pos port; server_ip = ip ++ replicate (64 - length ip) 0 },
              )
              else (false, info))
    switch true = refl
    switch false = refl

    same :
        (b : Bool)
        → ◌≡◌ {A = Bool × ServerIpInfo} (false, info) (if b then (false, info) else (false, info))
    same true = refl
    same false = refl

-- ===== src/Timer/Service/Rules.antt =====
-- common/timer.cpp, `GameTimer`: its maps agree, and removing a timer keeps them so.
use game_server.Prelude.{
  ℕ, ◌∙◌, ap, sym, subst, ◌≡◌, ◌≢◌, ◌≤◌, refl, inl, inr, Option, none, some, List, [], ◌∷◌, Bool,
  true, false, Bool-cases, ◌==◌, if◌then◌else◌, arith,
}
use game_server.Prelude.Map.{find, erase, find-erase}
use game_server.Timer.Service.{TimerContext, string_eq, erase_key, GameTimer, remove_entry}

pub string_eq-≡ : (a b : List ℕ) → string_eq a b ≡ true → a ≡ b
string_eq-≡ [] [] h = refl
string_eq-≡ [] (c ∷ b) h = absurd (cc)
string_eq-≡ (c ∷ a) [] h = absurd (cc)
string_eq-≡ (c ∷ a) (d ∷ b) h = ground (arith, string_eq-≡ a b)

pub string_eq_self : (a : List ℕ) → string_eq a a ≡ true
string_eq_self [] = refl
string_eq_self (c ∷ a) = ground (arith, string_eq_self a)

-- The handle h stands for the context at r, whose key stands for h.
pub record IsLive (g : GameTimer) (h r : ℕ) : Type 0 where
  pub ctx : TimerContext
  pub stored : g.contexts r ≡ some ctx
  pub own : ctx.handle ≡ h
  pub bound : g.key_map ctx.key ≡ some h

-- The key k stands for the handle h of a context that has the key.
pub record IsBound (g : GameTimer) (k : List ℕ) (h : ℕ) : Type 0 where
  pub ref : ℕ
  pub found : find h g.context_map ≡ some ref
  pub ctx : TimerContext
  pub stored : g.contexts ref ≡ some ctx
  pub key_eq : ctx.key ≡ k

pub record IsConsistent (g : GameTimer) : Type 0 where
  pub by_handle : (h r : ℕ) → find h g.context_map ≡ some r → IsLive g h r
  pub by_key : (k : List ℕ) (h : ℕ) → g.key_map k ≡ some h → IsBound g k h
  pub fresh : (r : ℕ) → g.next_context ≤ r → g.contexts r ≡ none

left :
    {V : Type 0} {m : Option V} (h j : ℕ) (t : V) (o : Option V)
    → o ≡ (if h == j then none else m)
    → o ≡ some t
    → (h ≢ j) × (m ≡ some t)
left h j t o p q = ground (arith, sym p ∙ q)

pub skip : {V : Type 0} (a b : ℕ) (x : Option V) → a ≢ b → (if a == b then none else x) ≡ x
skip a b x ne = ground arith

pub none_either : {V : Type 0} (b : Bool) (x : Option V) → x ≡ none → (if b then none else x) ≡ none
none_either true x q = refl
none_either false x q = q

erased :
    {V : Type 0} {t : V} (b : Bool) (m : Option V)
    → (if b then none else m) ≡ some t
    → (b ≡ false) × (m ≡ some t)
erased true m q = absurd (cc)
erased false m q = (refl, q)

pub false-true : false ≢ true
false-true q = cc

pub some-injective {ℓ} : {A : Type ℓ} {a b : A} → some a ≡ some b → a ≡ b
some-injective q = cc

module _ (g : GameTimer) (v : IsConsistent g) (h r : ℕ) (c : TimerContext)
    (f : find h g.context_map ≡ some r) (s : g.contexts r ≡ some c) where
  same_ctx : (v.by_handle h r f).ctx ≡ c
  same_ctx = some-injective (sym (v.by_handle h r f).stored ∙ s)

  key_bound : g.key_map c.key ≡ some h
  key_bound = subst (λ d. g.key_map d.key ≡ some h) same_ctx (v.by_handle h r f).bound

  own_handle : c.handle ≡ h
  own_handle = subst (λ d. d.handle ≡ h) same_ctx (v.by_handle h r f).own

  other_ref : (j t : ℕ) → h ≢ j → find j g.context_map ≡ some t → r ≢ t
  other_ref j t ne q e = ne (
      sym own_handle
      ∙ ap (λ d. d.handle) (some-injective (sym s ∙ ap g.contexts e ∙ (v.by_handle j t q).stored))
      ∙ (v.by_handle j t q).own)

  other_key : (k : List ℕ) (j : ℕ) → h ≢ j → g.key_map k ≡ some j → string_eq c.key k ≡ false
  other_key k j ne q = elim (Bool-cases (string_eq c.key k)) [
    | inl e ↦
        absurd (ne (some-injective (sym key_bound ∙ ap g.key_map (string_eq-≡ c.key k e) ∙ q)))
    | inr e ↦ e
  ]

  found_left :
      (j t : ℕ)
      → find j (erase h g.context_map) ≡ some t
      → (h ≢ j) × (find j g.context_map ≡ some t)
  found_left j t q = left h j t (find j (erase h g.context_map)) (find-erase h j g.context_map) q

  kept_key :
      (k : List ℕ) (j : ℕ)
      → erase_key c.key g.key_map k ≡ some j
      → (string_eq c.key k ≡ false) × (g.key_map k ≡ some j)
  unfolding erase_key
  kept_key k j q = erased (string_eq c.key k) (g.key_map k) q

  kept_handle :
      (j t : ℕ) → h ≢ j → find j g.context_map ≡ some t → IsLive (remove_entry g h r c) j t
  unfolding remove_entry erase_key
  kept_handle j t ne q = record {
    ctx = live.ctx;
    stored = skip r t (g.contexts t) (other_ref j t ne q) ∙ live.stored;
    own = live.own;
    bound = rw (other_key live.ctx.key j ne live.bound) live.bound;
  }
    where
      live : IsLive g j t
      live = v.by_handle j t q

  other_handle : (k : List ℕ) (j : ℕ) → string_eq c.key k ≡ false → g.key_map k ≡ some j → h ≢ j
  other_handle k j f' q e =
      absurd (false-true (sym f' ∙ ap (string_eq c.key) (sym same) ∙ string_eq_self c.key))
    where
      b : IsBound g k j
      b = v.by_key k j q

      ref_eq : b.ref ≡ r
      ref_eq = some-injective (sym b.found ∙ ap (λ x. find x g.context_map) (sym e) ∙ f)

      same : c.key ≡ k
      same =
          ap (λ d. d.key) (some-injective (sym s ∙ ap g.contexts (sym ref_eq) ∙ b.stored))
          ∙ b.key_eq

  kept_binding :
      (k : List ℕ) (j : ℕ)
      → string_eq c.key k ≡ false
      → g.key_map k ≡ some j
      → IsBound (remove_entry g h r c) k j
  unfolding remove_entry erase_key
  kept_binding k j e q = record {
    ref = b.ref;
    found = find-erase h j g.context_map ∙ skip h j (find j g.context_map) ne ∙ b.found;
    ctx = b.ctx;
    stored = skip r b.ref (g.contexts b.ref) (other_ref j b.ref ne b.found) ∙ b.stored;
    key_eq = b.key_eq;
  }
    where
      b : IsBound g k j
      b = v.by_key k j q

      ne : h ≢ j
      ne = other_handle k j e q

  pub remove_entry-IsConsistent : IsConsistent (remove_entry g h r c)
  unfolding remove_entry
  remove_entry-IsConsistent = record {
    by_handle = λ j t q. let (ne, q') = found_left j t q in kept_handle j t ne q';
    by_key = λ k j q. let (e, q') = kept_key k j q in kept_binding k j e q';
    fresh = λ t b. none_either (r == t) (g.contexts t) (v.fresh t b);
  }

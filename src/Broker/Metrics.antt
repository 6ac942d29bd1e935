-- ===== src/Broker/Metrics.antt =====
-- hpfeeds/broker/prometheus.py: collect_metrics and CustomCollector.collect, which add up over the
-- connections that the server lists.
use hpfeeds.Prelude.{
  ℕ, ◌+◌, ◌≡◌, ◌↔◌, refl, List, [], ◌∷◌, Bool, true, false, ◌&&◌, Option, none, some, if◌then◌else◌,
  arith, length, Eq, list_eq, text_eq, text_eq_iff,
}
use hpfeeds.Python.Values.{Text}
use hpfeeds.Broker.State.{Broker, Conn, Env}

abbrev same_owner : Option Text → Option Text → Bool
same_owner none none = true
same_owner none (some t) = false
same_owner (some t) none = false
same_owner (some t) (some u) = text_eq t u

same_owner_iff : (a b : Option Text) → (same_owner a b ≡ true) ↔ (a ≡ b)
same_owner_iff none none = (λ h. refl, λ h. refl)
same_owner_iff none (some t) = (λ h. ground arith, λ h. ground arith)
same_owner_iff (some t) none = (λ h. ground arith, λ h. ground arith)
same_owner_iff (some t) (some u) = ground (arith, text_eq_iff t u)

abbrev pub Holder : Type 0
Holder = Text × Option Text

abbrev same_holder : Holder → Holder → Bool
same_holder (a, u) (b, v) = text_eq a b && same_owner u v

pub same_holder_iff : (a b : Holder) → (same_holder a b ≡ true) ↔ (a ≡ b)
same_holder_iff (a, u) (b, v) = ground (arith, text_eq_iff a b, same_owner_iff u v)

instance abbrev pub holder_eq : Eq Holder
holder_eq = record { beq = same_holder; beq_iff = same_holder_iff }

module _ {A : Type 0} ⦃e : Eq A⦄ where
  -- d[key] = d.get(key, 0) + n
  unfoldable pub bump : A → ℕ → List (A × ℕ) → List (A × ℕ)
  bump key n [] = (key, n) ∷ []
  bump key n ((k, m) ∷ d) = if e.beq k key then (k, m + n) ∷ d else (k, m) ∷ bump key n d

  -- d.get(key, 0)
  unfoldable pub value : A → List (A × ℕ) → ℕ
  value key [] = 0
  value key ((k, m) ∷ d) = if e.beq k key then m else value key d

  -- The loop that adds up.
  unfoldable pub totals : List (A × ℕ) → List (A × ℕ) → List (A × ℕ)
  unfolding bump
  totals [] d = d
  totals ((k, n) ∷ entries) d = totals entries (bump k n d)

  -- What the entries of one key come to.
  unfoldable pub sum_of : A → List (A × ℕ) → ℕ
  sum_of key [] = 0
  sum_of key ((k, n) ∷ entries) = (if e.beq k key then n else 0) + sum_of key entries

-- `if not conn.ak: continue`, and else an entry.
abbrev entry : {A : Type 0} → Option Text → (Text → A × ℕ) → List (A × ℕ) → List (A × ℕ)
entry none f rest = rest
entry (some []) f rest = rest
entry (some (t ∷ ts)) f rest = f (t ∷ ts) ∷ rest

-- One entry for each connection that has authenticated, by `f` of its number and ident.
abbrev pub entries : {A : Type 0} → Broker → (ℕ → Text → A × ℕ) → List ℕ → List (A × ℕ)
entries b f [] = []
entries b f (c ∷ cs) = entry (b.conns c).ak (f c) (entries b f cs)

abbrev pub by_holder : Broker → ℕ → Text → Holder × ℕ
by_holder b c ak = ((ak, (b.conns c).uid), 1)

abbrev pub by_unparsed : Broker → ℕ → Text → Text × ℕ
by_unparsed b c ak = (ak, length (b.conns c).unpacker.buf)

module _ (env : Env) (b : Broker) where
  -- CustomCollector.collect: the gauge hpfeeds_client_authenticated_connections
  unfoldable pub collect : List (Holder × ℕ)
  unfolding totals
  collect = totals (entries b (by_holder b) (env.conn_order b.connections)) []

  -- collect_metrics: the gauge of receive buffers. That of send buffers asks the transports, whose
  -- answers are `size`.
  unfoldable pub receive_buffer_size : List (Text × ℕ)
  unfolding totals
  receive_buffer_size = totals (entries b (by_unparsed b) (env.conn_order b.connections)) []

  unfoldable pub send_buffer_size : (ℕ → ℕ) → List (Text × ℕ)
  unfolding totals
  send_buffer_size size =
      totals (entries b (λ c ak. (ak, size c)) (env.conn_order b.connections)) []

-- The connection has authenticated as this ident.
abbrev pub is_known : Text → Option Text → Bool
is_known ident none = false
is_known ident (some []) = false
is_known ident (some (t ∷ ts)) = text_eq (t ∷ ts) ident

-- It has authenticated as this ident and owner.
abbrev pub is_held : Holder → Conn → Bool
is_held holder x = is_known holder.0 x.ak && same_owner x.uid holder.1

-- What `f` gives for the numbers together.
abbrev pub total : (ℕ → ℕ) → List ℕ → ℕ
total f [] = 0
total f (c ∷ cs) = f c + total f cs

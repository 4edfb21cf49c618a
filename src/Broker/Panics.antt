-- ===== src/Broker/Panics.antt =====
-- Which panics the functions of v2/broker.go pass on: those of the connections that they call.
use kafka_api.Broker.Cluster.{Result}
use kafka_api.Broker.Cluster.{cache_metadata}
use kafka_api.Broker.Cluster.{node_of}
use kafka_api.Broker.Cluster.{ask_address}
use kafka_api.Broker.Cluster.{ask_conns}
use kafka_api.Broker.Cluster.{ask_dialled}
use kafka_api.Broker.Cluster.{ask_initial}
use kafka_api.Broker.Cluster.{ask_nodes}
use kafka_api.Broker.Cluster.{ask_seeds}
use kafka_api.Broker.Cluster.{close_dead_connection}
use kafka_api.Broker.Cluster.{closing}
use kafka_api.Broker.Cluster.{fetch_metadata}
use kafka_api.Broker.Cluster.{first_answer}
use kafka_api.Broker.Cluster.{or_else}
use kafka_api.Broker.Cluster.{refresh_metadata}
use kafka_api.Broker.Cluster.{refreshed}
use kafka_api.Common.{
  Bool, true, false, if◌then◌else◌, ℕ, ◌≡◌, refl, Option, none, some, List, [], ◌∷◌, ◌⊎◌, inl, inr,
  Option-cases,
}
use kafka_api.Common.Int.{ℤ}
use kafka_api.Common.Map.{find, remove}
use kafka_api.Proto.Errors.{GoError}
use kafka_api.Proto.Metadata.{MetadataResp}
use kafka_api.Broker.{Network, Broker, int_key, proceed}

-- a call of the broker's connections that panics
pub data Panics {C W : Type 0} (net : Network C W) : Type 0 where
  dialling : (addr : List ℕ) (w : W) → net.connect addr w ≡ none → Panics net
  asking :
      (conn : C) (topics : List (List ℕ)) (w : W) → net.metadata conn topics w ≡ none → Panics net

-- a result with the property P, or a panic of a connection
abbrev pub Ends : {C W A : Type 0} → Network C W → (A → Type 0) → Option A → Type 0
Ends net P none = Panics net
Ends net P (some a) = P a

abbrev pub Any : {A : Type 0} → A → Type 0
Any a = Unit {0}

-- a result with the property P, or a panic, of which X holds
abbrev pub Within : {A : Type 0} → Type 0 → (A → Type 0) → Option A → Type 0
Within X P none = X
Within X P (some a) = P a

pub proceed-Within :
    {A B : Type 0} (X : Type 0) (P : A → Type 0) (Q : B → Type 0) (o : Option A) (f : A → Option B)
    → Within X P o
    → ((a : A) → P a → Within X Q (f a))
    → Within X Q (proceed o f)
unfolding proceed
proceed-Within X P Q none f h k = h
proceed-Within X P Q (some a) f h k = k a h

pub known-Within :
    {A : Type 0} (X : Type 0) (p o : Option A)
    → p ≡ o
    → (p ≡ none → X)
    → Within X (λ a. p ≡ some a) o
known-Within X p none e h = h e
known-Within X p (some a) e h = e

pub any-Within :
    {A : Type 0} (X : Type 0) (o : Option A) → (o ≡ none → X) → Within X (λ a. Unit {0}) o
any-Within X none h = h refl
any-Within X (some a) h = tt

pub if-Within :
    {A : Type 0} (X : Type 0) (P : A → Type 0) (t : Bool) (x y : Option A)
    → Within X P x
    → Within X P y
    → Within X P (if t then x else y)
if-Within X P true x y h k = h
if-Within X P false x y h k = k

module _ {C W : Type 0} (net : Network C W) where
  -- panics of the connections' other calls are among those of X
  pub Ends-Within :
      {A : Type 0} (X : Type 0) (P : A → Type 0) (o : Option A)
      → (Panics net → X)
      → Ends net P o
      → Within X P o
  Ends-Within X P none x h = x h
  Ends-Within X P (some a) x h = h

  pub if-Ends :
      {A : Type 0} (P : A → Type 0) (t : Bool) (x y : Option A)
      → Ends net P x
      → Ends net P y
      → Ends net P (if t then x else y)
  if-Ends P true x y h k = h
  if-Ends P false x y h k = k

  pub Ends-both :
      {A : Type 0} (P Q : A → Type 0) (o : Option A)
      → Ends net P o
      → Ends net Q o
      → Ends net (λ a. P a × Q a) o
  Ends-both P Q none p q = p
  Ends-both P Q (some a) p q = (p, q)

  pub proceed-Ends :
      {A B : Type 0} (P : A → Type 0) (Q : B → Type 0) (o : Option A) (f : A → Option B)
      → Ends net P o
      → ((a : A) → P a → Ends net Q (f a))
      → Ends net Q (proceed o f)
  unfolding proceed
  proceed-Ends P Q none f h k = h
  proceed-Ends P Q (some a) f h k = k a h

  pub connect-Ends : (addr : List ℕ) (w : W) → Ends net Any (net.connect addr w)
  connect-Ends addr w = elim (Option-cases (net.connect addr w)) [
    | inl e ↦ rw (Ends, e) (dialling addr w e)
    | inr (r, e) ↦ rw (Ends, e) tt
  ]

  metadata-Ends :
      (conn : C) (topics : List (List ℕ)) (w : W) → Ends net Any (net.metadata conn topics w)
  metadata-Ends conn topics w = elim (Option-cases (net.metadata conn topics w)) [
    | inl e ↦ rw (Ends, e) (asking conn topics w e)
    | inr (r, e) ↦ rw (Ends, e) tt
  ]

  first_answer-Ends :
      (again : W → Option (Option MetadataResp × W)) (r : (GoError ⊎ MetadataResp) × W)
      → ((w : W) → Ends net Any (again w))
      → Ends net Any (first_answer net again r)
  unfolding first_answer
  first_answer-Ends again (inr resp, w) h = tt
  first_answer-Ends again (inl e, w) h = h w

  ask_conns-Ends :
      (topics : List (List ℕ)) (conns : List (ℤ × C)) (w : W)
      → Ends net Any (ask_conns net topics conns w)
  unfolding ask_conns
  ask_conns-Ends topics [] w = tt
  ask_conns-Ends topics ((node_id, conn) ∷ conns) w =
      proceed-Ends Any Any (net.metadata conn topics w)
        (first_answer net (ask_conns net topics conns)) (metadata-Ends conn topics w)
        (λ r _. first_answer-Ends (ask_conns net topics conns) r (ask_conns-Ends topics conns))

  closing-Ends : (conn : C) (r : (GoError ⊎ MetadataResp) × W) → Ends net Any (closing net conn r)
  unfolding closing
  closing-Ends conn (inr resp, w) = tt
  closing-Ends conn (inl e, w) = tt

  ask_dialled-Ends :
      (topics : List (List ℕ)) (r : (GoError ⊎ C) × W) → Ends net Any (ask_dialled net topics r)
  unfolding ask_dialled
  ask_dialled-Ends topics (inl e, w) = tt
  ask_dialled-Ends topics (inr conn, w) =
      proceed-Ends Any Any (net.metadata conn topics w) (closing net conn)
        (metadata-Ends conn topics w) (λ r _. closing-Ends conn r)

  ask_address-Ends :
      (topics : List (List ℕ)) (addr : List ℕ) (w : W)
      → Ends net Any (ask_address net topics addr w)
  unfolding ask_address
  ask_address-Ends topics addr w =
      proceed-Ends Any Any (net.connect addr w) (ask_dialled net topics) (connect-Ends addr w)
        (λ r _. ask_dialled-Ends topics r)

  or_else-Ends :
      (again : W → Option (Option MetadataResp × W)) (o : Option (Option MetadataResp × W))
      → Ends net Any o
      → ((w : W) → Ends net Any (again w))
      → Ends net Any (proceed o (or_else net again))
  unfolding proceed or_else
  or_else-Ends again none h k = h
  or_else-Ends again (some (some resp, w)) h k = tt
  or_else-Ends again (some (none, w)) h k = k w

  ask_nodes-Ends :
      (topics : List (List ℕ)) (conns : List (ℤ × C)) (nodes : List (ℤ × List ℕ)) (w : W)
      → Ends net Any (ask_nodes net topics conns nodes w)
  unfolding ask_nodes
  ask_nodes-Ends topics conns [] w = tt
  ask_nodes-Ends topics conns ((node_id, addr) ∷ nodes) w =
      elim (Option-cases (find node_id conns)) [
        | inr (c, kept) ↦ rw (Ends, ask_nodes, kept) (ask_nodes-Ends topics conns nodes w)
        | inl unkept ↦
            rw (Ends, ask_nodes, unkept)
              (or_else-Ends (ask_nodes net topics conns nodes) (ask_address net topics addr w)
                (ask_address-Ends topics addr w) (ask_nodes-Ends topics conns nodes))
      ]

  ask_seeds-Ends :
      (topics addrs : List (List ℕ)) (w : W) → Ends net Any (ask_seeds net topics addrs w)
  unfolding ask_seeds
  ask_seeds-Ends topics [] w = tt
  ask_seeds-Ends topics (addr ∷ addrs) w =
      or_else-Ends (ask_seeds net topics addrs) (ask_address net topics addr w)
        (ask_address-Ends topics addr w) (ask_seeds-Ends topics addrs)

  ask_initial-Ends :
      (topics addresses : List (List ℕ)) (w : W) → Ends net Any (ask_initial net topics addresses w)
  unfolding ask_initial
  ask_initial-Ends topics addresses w =
      let (addrs, w') = net.shuffle addresses w in ask_seeds-Ends topics addrs w'

  -- fetchMetadata changes the world alone
  abbrev pub IsSame : Broker C W → {A : Type 0} → A × Broker C W → Type 0
  IsSame b (a, b') = b'.conf ≡ b.conf

  pub fetch_metadata-Ends :
      (topics : List (List ℕ)) (b : Broker C W) → Ends net (IsSame b) (fetch_metadata net topics b)
  unfolding fetch_metadata
  fetch_metadata-Ends topics b =
      proceed-Ends Any (IsSame b) _ _
        (or_else-Ends (ask_initial net topics b.node_addresses) _
          (or_else-Ends (ask_nodes net topics b.conns b.metadata.nodes) _
            (ask_conns-Ends topics b.conns b.world)
            (ask_nodes-Ends topics b.conns b.metadata.nodes))
          (ask_initial-Ends topics b.node_addresses))
        (λ r _. refl)

  refreshed-IsSame :
      (b : Broker C W) (r : Result MetadataResp × Broker C W)
      → IsSame b r
      → IsSame b (refreshed net r)
  unfolding refreshed cache_metadata
  refreshed-IsSame b (inl e, b') h = h
  refreshed-IsSame b (inr resp, b') h = h

  pub refresh_metadata-Ends : (b : Broker C W) → Ends net (IsSame b) (refresh_metadata net b)
  unfolding refresh_metadata
  refresh_metadata-Ends b =
      proceed-Ends (IsSame b) (IsSame b) (fetch_metadata net [] b) _ (fetch_metadata-Ends [] b)
        (refreshed-IsSame b)

  pub close_dead_connection-Ends :
      (conn : C) (b : Broker C W)
      → Ends net (λ b'. b'.conf ≡ b.conf) (close_dead_connection net conn b)
  unfolding close_dead_connection
  close_dead_connection-Ends conn b = elim (Option-cases (node_of net conn b.conns)) [
    | inl unknown ↦ rw (Ends, close_dead_connection, unknown) refl
    | inr (node_id, known) ↦
        let left = record b { conns = remove node_id b.conns; world = net.close conn b.world } in
        rw (Ends, close_dead_connection, known)
          (proceed-Ends (IsSame left) (λ b'. b'.conf ≡ b.conf) (refresh_metadata net left)
            (λ r. some r.1) (refresh_metadata-Ends left) (λ r h. h))
  ]

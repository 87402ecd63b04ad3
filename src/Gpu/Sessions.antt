-- ===== src/Gpu/Sessions.antt =====
-- class SessionLru (service/src/service/prediction_pipe_server.hpp): the inference sessions of the
-- clients. The inference core is a parameter that creates sessions; what the lease sees of the clock
-- and of the backend is an input. `acquire` gives `none` where the source leaves undefined what happens,
-- and the state without a session where it throws.
use ime_windows.Prelude.{
  ℕ, Bool, true, false, not, ◌&&◌, Option, none, some, List, [], ◌∷◌, ◌++◌, ltb, ◌==◌,
  if◌then◌else◌, length, value_at, without, ◌>>=◌,
}
use ime_windows.Gpu.Lease.{Result, Lease, BoostOutcome, activate, give_backend, set_enabled}

abbrev pub capacity : ℕ
capacity = 1

-- Two seconds, and one second.
abbrev pub idle_timeout : ℕ
idle_timeout = 2000

abbrev pub retry_delay : ℕ
retry_delay = 1000

pub record SessionLru (C S : Type 0) : Type 0 where
  pub core : Option C
  pub gpu_activity : Lease
  pub gpu_boost_enabled : Bool
  pub boost_backend_initialized : Bool
  pub recency : List ℕ
  pub sessions : List (ℕ × S)
  pub idle : List S

-- `back()` and what `pop_back()` leaves.
abbrev pub last_of {ℓ} : {A : Type ℓ} → List A → Option (A × List A)
last_of [] = none
last_of (x ∷ xs) =
    let rest = last_of xs in elim rest [ none ↦ some (x, []) | some (y, ys) ↦ some (y, x ∷ ys) ]

-- The list without the one node that holds the value.
abbrev pub erase_node : ℕ → List ℕ → List ℕ
erase_node c [] = []
erase_node c (x ∷ xs) = let rest = erase_node c xs in if x == c then xs else x ∷ rest

module _ {C S : Type 0} where
  unfoldable pub wake : BoostOutcome → SessionLru C S → SessionLru C S
  wake o s = record s { gpu_activity = activate idle_timeout retry_delay o s.gpu_activity }

  -- The session of the client that was served the longest ago.
  unfoldable pub evict : SessionLru C S → Option (S × SessionLru C S)
  evict s = do
    (evicted_client_id, kept) ← last_of s.recency
    session ← value_at evicted_client_id s.sessions
    some (session, record s { recency = kept; sessions = without evicted_client_id s.sessions })

  -- `create_session` may throw, and then gives no session.
  module _ (create_session : C → Option S × C) where
    -- A session for a client that has none.
    unfoldable pub free_session : C → SessionLru C S → Option (Option S × SessionLru C S)
    free_session core s =
        let (created, core') = create_session core in
        let new : Option S × SessionLru C S = (created, record s { core = some core' }) in
        elim (last_of s.idle) [
          | some (session, rest) ↦ some (some session, record s { idle = rest })
          | none ↦
              if ltb (length s.sessions) capacity
              then some new
              else elim (evict s) [ none ↦ none | some (session, rest) ↦ some (some session, rest) ]
        ]

    -- `acquire`, with a core that is loaded.
    unfoldable pub acquire_with :
        C → BoostOutcome → ℕ → SessionLru C S → Option (SessionLru C S × Option S)
    acquire_with core o client_id s =
        let woken = wake o s in
        let renewed : SessionLru C S = record woken {
          recency = client_id ∷ erase_node client_id woken.recency;
        } in
        elim (value_at client_id s.sessions) [
          | some session ↦ some (renewed, some session)
          | none ↦ elim (free_session core woken) [
            | none ↦ none
            | some (none, rest) ↦ some (rest, none)
            | some (some session, rest) ↦ some (
              record rest {
                recency = client_id ∷ rest.recency;
                sessions = (client_id, session) ∷ rest.sessions;
              },
              some session,
            )
          ]
        ]

    unfoldable pub acquire : BoostOutcome → ℕ → SessionLru C S → Option (SessionLru C S × Option S)
    acquire o client_id s = elim s.core [
      | none ↦ some (s, none)
      | some core ↦ acquire_with core o client_id s
    ]

  unfoldable pub erase : ℕ → SessionLru C S → SessionLru C S
  erase client_id s = elim (value_at client_id s.sessions) [
    | none ↦ s
    | some session ↦ record s {
      recency = erase_node client_id s.recency;
      sessions = without client_id s.sessions;
      idle = s.idle ++ session ∷ [];
    }
  ]

  -- With the new core, or `none` if its constructor throws; `is_given` is whether there is a boost for
  -- its GPU.
  unfoldable pub replace_core : Option C → Option Result → Bool → SessionLru C S → SessionLru C S
  replace_core none result is_given s = s
  replace_core (some replacement) result is_given s =
      let dropped = give_backend result false s.gpu_activity in
      record s {
        sessions = [];
        idle = [];
        recency = [];
        core = some replacement;
        gpu_activity = give_backend none (s.gpu_boost_enabled && is_given) dropped;
        boost_backend_initialized = s.gpu_boost_enabled;
      }

  unfoldable pub set_gpu_boost_enabled :
      Bool → Option Result → Bool → SessionLru C S → SessionLru C S
  set_gpu_boost_enabled enabled result is_given s =
      let is_new = enabled && not s.boost_backend_initialized in
      let backed = if is_new then give_backend result is_given s.gpu_activity else s.gpu_activity in
      record s {
        boost_backend_initialized = if is_new then true else s.boost_backend_initialized;
        gpu_boost_enabled = enabled;
        gpu_activity = set_enabled enabled backed;
      }

  unfoldable pub release_gpu_activity : Option Result → SessionLru C S → SessionLru C S
  release_gpu_activity result s = record s {
    gpu_activity = give_backend result false s.gpu_activity;
  }

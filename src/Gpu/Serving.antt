-- ===== src/Gpu/Serving.antt =====
-- How the clients share one session
-- (service/src/service/prediction_pipe_server.hpp).
use ime_windows.Prelude.{
  ℕ, ◌+◌, ◌≤◌, ◌<◌, ◌≡◌, ◌⊎◌, refl, sym, Bool-cases, inl, inr, Option, none, some, Option-cases,
  List, [], ◌∷◌, ◌==◌, length, map, value_at, arith,
}
use ime_windows.Gpu.Lease.{BoostOutcome}
use ime_windows.Gpu.Sessions.{SessionLru, acquire, acquire_with, erase, wake, free_session, evict}

-- No session yet, an idle one, or the session of one client.
shape :
    {S : Type 0} (recency : List ℕ) (sessions : List (ℕ × S)) (idle : List S)
    → map (λ p. p.0) sessions ≡ recency
    → length sessions + length idle ≤ 1
    → ((recency ≡ []) × (sessions ≡ []) × (idle ≡ []))
      ⊎ ((x : S) × (recency ≡ []) × (sessions ≡ []) × (idle ≡ x ∷ []))
      ⊎ ((k : ℕ) × (x : S) × (recency ≡ k ∷ []) × (sessions ≡ (k, x) ∷ []) × (idle ≡ []))
shape recency [] [] same one = inl (sym same, refl, refl)
shape recency [] (x ∷ []) same one = inr (inl (x, sym same, refl, refl))
shape recency [] (x ∷ y ∷ idle) same one = absurd (omega arith)
shape recency ((k, x) ∷ []) [] same one = inr (inr (k, x, sym same, refl, refl))
shape recency ((k, x) ∷ []) (y ∷ idle) same one = absurd (omega arith)
shape recency ((k, x) ∷ p ∷ sessions) idle same one = absurd (omega arith)

module _ {C S : Type 0} where
  -- The clients in the order of use are those that have a session, and there is at most one session,
  -- idle ones included.
  pub record IsValid (s : SessionLru C S) : Type 0 where
    pub same_clients : map (λ p. p.0) s.sessions ≡ s.recency
    pub one_session : length s.sessions + length s.idle ≤ 1

  -- What a client leaves behind.
  pub erase-IsValid : (client_id : ℕ) (s : SessionLru C S) → IsValid s → IsValid (erase client_id s)
  unfolding erase
  erase-IsValid client_id s v =
      elim (shape s.recency s.sessions s.idle v.same_clients v.one_session) [
        | inl (r, e, i) ↦ rw (r, e, i) (ground arith)
        | inr (inl (x, r, e, i)) ↦ rw (r, e, i) (ground arith)
        | inr (inr (k, x, r, e, i)) ↦ elim (Bool-cases (k == client_id)) [
          | inl own ↦ ground (arith, r, e, i, own)
          | inr other ↦ ground (arith, r, e, i, other)
        ]
      ]

  module _ (create_session : C → Option S × C) where
    -- `s'` serves the client with the session.
    pub record IsServed (client_id : ℕ) (s s' : SessionLru C S) (session : S) : Type 0 where
      pub is_valid : IsValid s'
      pub is_its : value_at client_id s'.sessions ≡ some session
      pub is_newest : s'.recency ≡ client_id ∷ []
      pub is_kept : 0 < length s.sessions + length s.idle → s'.core ≡ s.core

    -- There is no core, or there is no session and the core creates none.
    abbrev pub CannotServe : SessionLru C S → Type 0
    CannotServe s =
        (s.core ≡ none)
        ⊎ ((core : C) × (s.core ≡ some core)
            × ((create_session core).0 ≡ none)
            × (length s.sessions + length s.idle ≡ 0))

    -- The sessions and the clients are as before.
    abbrev pub AsBefore : SessionLru C S → SessionLru C S → Type 0
    AsBefore s s' = (s'.sessions ≡ s.sessions) × (s'.idle ≡ s.idle) × (s'.recency ≡ s.recency)

    abbrev pub Answer : BoostOutcome → ℕ → SessionLru C S → Type 0
    Answer o client_id s =
        ((s' : SessionLru C S) × (session : S) × (acquire create_session o client_id s
            ≡ some (s', some session))
          × IsServed client_id s s' session)
        ⊎ ((s' : SessionLru C S) × (acquire create_session o client_id s ≡ some (s', none))
            × CannotServe s
            × AsBefore s s')

    -- The answer where a core is loaded.
    acquire-Answer :
        (o : BoostOutcome) (client_id : ℕ) (core : C) (s : SessionLru C S)
        → s.core ≡ some core
        → IsValid s
        → Answer o client_id s
    unfolding acquire acquire_with wake free_session evict
    acquire-Answer o client_id core s loaded v =
        elim (shape s.recency s.sessions s.idle v.same_clients v.one_session) [
          | inl (r, e, i) ↦ elim (Option-cases (create_session core).0) [
            | inl failed ↦
                rw (loaded, r, e, i, failed)
                  (inr (_, refl, inr (core, refl, failed, omega arith), (refl, refl, refl)))
            | inr (session, created) ↦
                rw (loaded, r, e, i, created) (inl (_, session, refl, ground arith))
          ]
          | inr (inl (x, r, e, i)) ↦ rw (loaded, r, e, i) (inl (_, x, refl, ground arith))
          | inr (inr (k, x, r, e, i)) ↦ elim (Bool-cases (k == client_id)) [
            | inl own ↦ inl (
              record (wake o s) { recency = client_id ∷ [] },
              x,
              ground (arith, loaded, r, e, i, own),
              ground (arith, loaded, r, e, i, own),
            )
            | inr other ↦ inl (
              record (wake o s) { recency = client_id ∷ []; sessions = (client_id, x) ∷ [] },
              x,
              ground (arith, loaded, r, e, i, other),
              ground (arith, loaded, r, e, i, other),
            )
          ]
        ]

    unloaded-throws :
        (o : BoostOutcome) (client_id : ℕ) (s : SessionLru C S)
        → s.core ≡ none
        → acquire create_session o client_id s ≡ some (s, none)
    unfolding acquire
    unloaded-throws o client_id s unloaded = ground (arith, unloaded)

    -- In a well-formed state, a client that asks is served, and is then the only one with a session, and
    -- a session is created only when there is none at all, idle ones included; or the request throws,
    -- only because no core is loaded or because there is no session and the core cannot create one, and
    -- leaves the sessions as they were.
    pub acquire-IsServed :
        (o : BoostOutcome) (client_id : ℕ) (s : SessionLru C S)
        → IsValid s
        → ((s' : SessionLru C S) × (session : S) × (acquire create_session o client_id s
              ≡ some (s', some session))
            × IsServed client_id s s' session)
          ⊎ ((s' : SessionLru C S) × (acquire create_session o client_id s ≡ some (s', none))
              × CannotServe s
              × AsBefore s s')
    acquire-IsServed o client_id s v = elim (Option-cases s.core) [
      | inl unloaded ↦
          inr (s, unloaded-throws o client_id s unloaded, inl unloaded, (refl, refl, refl))
      | inr (core, loaded) ↦ acquire-Answer o client_id core s loaded v
    ]

-- ===== src/Pipe/Ending.antt =====
-- The loop of handle_client (service/src/service/prediction_pipe_server.hpp), and what its readers leave
-- of the bytes that a client has sent.
use ime_windows.Prelude.{
  ℕ, zero, suc, ◌+◌, ◌*◌, ◌≤◌, ◌<◌, ◌≡◌, refl, inl, inr, Bool, true, false, not, ◌&&◌, Option, none,
  some, List, [], ◌∷◌, length, leb, ◌==◌, is_empty, if◌then◌else◌, arith, Option-cases, ◌>>=◌, ◌>>◌,
  guard,
}
use ime_windows.Pipe.Bytes.{read_val, read_values, read_utf16_string}
use ime_windows.Pipe.Server.{
  PaddingEntry, ClientRequest, read_padding_entry, read_padding_entries, read_padding,
  read_input_entry, read_input, read_commit, read_prefill, read_discard, read_predict, read_body,
  read_request, Services, ClientState, handle, handle_client,
}

-- A reader leaves no more than it was given.
abbrev Shortens {ℓ} : {A : Type ℓ} → (List ℕ → Option (A × List ℕ)) → Type ℓ
Shortens {A = A} f =
    (bytes : List ℕ) (x : A) (rest : List ℕ) → f bytes ≡ some (x, rest) → length rest ≤ length bytes

module _ {ℓ κ} {A : Type ℓ} {B : Type κ} where
  bind-Shortens :
      (f : List ℕ → Option (A × List ℕ)) (g : A → List ℕ → Option (B × List ℕ))
      → Shortens f
      → ((x : A) → Shortens (g x))
      → Shortens (λ bytes. f bytes >>= λ p. g p.0 p.1)
  bind-Shortens f g hf hg bytes y rest h = elim (Option-cases (f bytes)) [
    | inl e ↦ absurd (ground (arith, e, h))
    | inr (p, e) ↦ omega (arith, hf bytes p.0 p.1 e, hg p.0 p.1 y rest (rw e at h))
  ]

module _ {ℓ} {A : Type ℓ} where
  some-Shortens : (x : A) → Shortens (λ bytes. some (x, bytes))
  some-Shortens x bytes y rest h = ground (arith, h)

  guard-Shortens :
      (t : Bool) (f : List ℕ → Option (A × List ℕ))
      → Shortens f
      → Shortens (λ bytes. guard t >> f bytes)
  guard-Shortens true f hf bytes y rest h = hf bytes y rest h
  guard-Shortens false f hf bytes y rest h = cc

  if-Shortens :
      (t : Bool) (f g : List ℕ → Option (A × List ℕ))
      → Shortens f
      → Shortens g
      → Shortens (λ bytes. if t then f bytes else g bytes)
  if-Shortens true f g hf hg = hf
  if-Shortens false f g hf hg = hg

byte-Shortens :
    (n : ℕ) (b : ℕ) → Shortens (read_val n) → Shortens (λ bytes. read_val (suc n) (b ∷ bytes))
unfolding read_val
byte-Shortens n b h =
    bind-Shortens (read_val n) (λ high after. some (b + 256 * high, after)) h
      (λ high. some-Shortens (b + 256 * high))

read_val-Shortens : (n : ℕ) → Shortens (read_val n)
unfolding read_val
read_val-Shortens zero bytes x rest h = some-Shortens 0 bytes x rest h
read_val-Shortens (suc n) [] x rest h = cc
read_val-Shortens (suc n) (b ∷ bytes) x rest h =
    omega (arith, byte-Shortens n b (read_val-Shortens n) bytes x rest h)

read_values-Shortens : (width n : ℕ) → Shortens (read_values width n)
unfolding read_values
read_values-Shortens width zero = some-Shortens []
read_values-Shortens width (suc n) =
    bind-Shortens (read_val width) _ (read_val-Shortens width) (λ c.
      bind-Shortens (read_values width n) _ (read_values-Shortens width n)
        (λ text. some-Shortens (c ∷ text)))

read_utf16_string-Shortens : (maximum_length : ℕ) → Shortens (read_utf16_string maximum_length)
unfolding read_utf16_string
read_utf16_string-Shortens maximum_length =
    bind-Shortens (read_val 4) _ (read_val-Shortens 4)
      (λ size. guard-Shortens (leb size maximum_length) _ (read_values-Shortens 2 size))

read_padding_entry-Shortens : Shortens read_padding_entry
unfolding read_padding_entry
read_padding_entry-Shortens = bind-Shortens (read_val 1) _ (read_val-Shortens 1) (λ type.
    guard-Shortens (leb type 1) _ (
      if-Shortens (type == 0) _ _
        (bind-Shortens (read_utf16_string 1024) _ (read_utf16_string-Shortens 1024)
          (λ text. some-Shortens (PaddingEntry.reading text)))
        (bind-Shortens (read_val 4) _ (read_val-Shortens 4)
          (λ c. guard-Shortens (leb c 0x10FFFF) _ (some-Shortens (PaddingEntry.chosen c))))))

read_padding_entries-Shortens : (n : ℕ) → Shortens (read_padding_entries n)
unfolding read_padding_entries
read_padding_entries-Shortens zero = some-Shortens []
read_padding_entries-Shortens (suc n) =
    bind-Shortens read_padding_entry _ read_padding_entry-Shortens (λ e.
      bind-Shortens (read_padding_entries n) _ (read_padding_entries-Shortens n)
        (λ entries. some-Shortens (e ∷ entries)))

read_input_entry-Shortens : Shortens read_input_entry
unfolding read_input_entry
read_input_entry-Shortens =
    bind-Shortens (read_utf16_string 1024) _ (read_utf16_string-Shortens 1024) (λ read.
      bind-Shortens (read_utf16_string 1024) _ (read_utf16_string-Shortens 1024) (λ shown.
        guard-Shortens (not (is_empty shown)) _ (
          bind-Shortens (read_val 1) _ (read_val-Shortens 1)
            (λ by_hand. guard-Shortens (leb by_hand 1) _ (some-Shortens _)))))

read_input-Shortens : (n : ℕ) → Shortens (read_input n)
unfolding read_input
read_input-Shortens zero = some-Shortens []
read_input-Shortens (suc n) = bind-Shortens read_input_entry _ read_input_entry-Shortens (λ e.
    bind-Shortens (read_input n) _ (read_input-Shortens n) (λ entries. some-Shortens (e ∷ entries)))

read_commit-Shortens : (latest : ℕ) → Shortens (read_commit latest)
unfolding read_commit
read_commit-Shortens latest = bind-Shortens (read_val 8) _ (read_val-Shortens 8) (λ token.
    guard-Shortens (not (token == 0)) _ (
      guard-Shortens (not (leb token latest)) _ (
        bind-Shortens (read_utf16_string 4096) _ (read_utf16_string-Shortens 4096) (λ context.
          bind-Shortens (read_utf16_string 1024) _ (read_utf16_string-Shortens 1024) (λ answer.
            bind-Shortens (read_val 4) _ (read_val-Shortens 4) (λ count.
              guard-Shortens (not (count == 0)) _ (
                guard-Shortens (leb count 1024) _ (
                  bind-Shortens (read_input count) _ (read_input-Shortens count) (λ input.
                    some-Shortens (ClientRequest.record_commit token context answer input))))))))))

read_padding-Shortens : Shortens read_padding
unfolding read_padding
read_padding-Shortens =
    bind-Shortens (read_val 4) _ (read_val-Shortens 4)
      (λ count. guard-Shortens (leb count 1024) _ (read_padding_entries-Shortens count))

read_predict-Shortens : Shortens read_predict
unfolding read_predict
read_predict-Shortens =
    bind-Shortens (read_utf16_string 4096) _ (read_utf16_string-Shortens 4096) (λ context.
      bind-Shortens read_padding _ read_padding-Shortens (λ padding.
        guard-Shortens (not (is_empty padding && is_empty context)) _
          (some-Shortens (ClientRequest.predict context padding))))

read_prefill-Shortens : Shortens read_prefill
unfolding read_prefill
read_prefill-Shortens =
    bind-Shortens (read_utf16_string 4096) _ (read_utf16_string-Shortens 4096)
      (λ context. some-Shortens (ClientRequest.prefill context))

read_discard-Shortens : Shortens read_discard
unfolding read_discard
read_discard-Shortens =
    bind-Shortens (read_val 8) _ (read_val-Shortens 8)
      (λ token. some-Shortens (ClientRequest.discard_commit token))

none-Shortens {ℓ} : {A : Type ℓ} → Shortens {A = A} (λ bytes. none)
none-Shortens bytes x rest h = cc

read_body-Shortens : (latest command : ℕ) → Shortens (read_body latest command)
unfolding read_body
read_body-Shortens latest command =
    if-Shortens (command == 2) _ _ (some-Shortens ClientRequest.toggle_mode) (
      if-Shortens (command == 3) _ _ (some-Shortens ClientRequest.get_mode) (
        if-Shortens (command == 4) _ _ (some-Shortens ClientRequest.get_ready) (
          if-Shortens (command == 7) _ _ read_prefill-Shortens (
            if-Shortens (command == 5) _ _ (read_commit-Shortens latest) (
              if-Shortens (command == 6) _ _ read_discard-Shortens
                (if-Shortens (command == 1) _ _ read_predict-Shortens none-Shortens))))))

-- A request takes at least one byte.
read_request-shorter :
    (latest : ℕ) (bytes : List ℕ) (r : ClientRequest) (rest : List ℕ)
    → read_request latest bytes ≡ some (r, rest)
    → length rest < length bytes
unfolding read_request read_val
read_request-shorter latest [] r rest h = cc
read_request-shorter latest (b ∷ bytes) r rest h =
    omega (arith, read_body-Shortens latest (b + 256 * 0) bytes r rest h)

module _ {S : Type 0} (services : Services S) (session : List ℕ) where
  -- The loop as the source has it, without fuel: it ends when a request cannot be read.
  pub data Serves : List ℕ → ClientState S → ClientState S → Type 0 where
    broken :
        {bytes : List ℕ} {c : ClientState S}
        → read_request c.latest_commit_token bytes ≡ none
        → Serves bytes c c
    turn :
        {bytes rest : List ℕ} {c d : ClientState S} (r : ClientRequest)
        → read_request c.latest_commit_token bytes ≡ some (r, rest)
        → Serves rest (handle services session r c) d
        → Serves bytes c d

  -- For any bytes that a client sends, the loop ends: with fuel for one turn more than there are bytes
  -- it does not run out, and the state it ends in is the one of the loop without fuel, which stops
  -- where a request cannot be read.
  pub handle_client-Serves :
      (n : ℕ) (bytes : List ℕ) (c : ClientState S)
      → length bytes < n
      → (d : ClientState S) × (handle_client services session n bytes c ≡ some d) × Serves bytes c d
  unfolding handle_client
  handle_client-Serves zero bytes c lt = absurd (omega arith)
  handle_client-Serves (suc n) bytes c lt =
      elim (Option-cases (read_request c.latest_commit_token bytes)) [
        | inl e ↦ (c, rw (e, handle_client) refl, Serves.broken e)
        | inr ((r, rest), e) ↦
            let (d, ended, serves) =
              handle_client-Serves n rest (handle services session r c)
                (omega (arith, lt, read_request-shorter c.latest_commit_token bytes r rest e)) in
            (d, rw (e, handle_client) ended, Serves.turn r e serves)
      ]

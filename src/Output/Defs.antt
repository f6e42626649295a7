-- ===== src/Output/Defs.antt =====
-- `subscribe_output`, `broadcast_output_batch` and `decrement_subscriber_count` of
-- src/native_runtime.rs. The bounded channel of crossbeam is a parameter: `try_send` returns how the
-- sending ended and the channel afterwards.
use ferrous_framework.Base.{
  ℕ, ◌+◌, ◌-◌, ◌%◌, ◌^◌, String, Bool, true, false, ◌||◌, Option, none, some, List, [], ◌∷◌, ◌++◌,
  ltb, ◌==◌, Result, ok, err, if◌then◌else◌,
}
use ferrous_framework.Shell.Record.{Capabilities}
use ferrous_framework.Output.Map.{Stream, stdout, stderr, Key, get, insert, remove}

pub record Chunk : Type 0 where
  pub shell_id : String
  pub stream : Stream
  pub bytes : List ℕ
  pub dropped_before : ℕ

pub data Sent : Type 0 where
  sent full disconnected : Sent

pub data Error : Type 0 where
  zero_capacity not_subscribable : Error

abbrev pub is_empty {ℓ} : {A : Type ℓ} → List A → Bool
is_empty [] = true
is_empty (x ∷ xs) = false

abbrev pub unwrap_or {ℓ} : {A : Type ℓ} → Option A → A → A
unwrap_or none d = d
unwrap_or (some a) d = a

-- what `match stream` reads from the capabilities
abbrev pub can_subscribe : Stream → Capabilities → Bool
can_subscribe stdout c = c.stdout_subscribe
can_subscribe stderr c = c.stderr_subscribe

module _ (Tx : Type 0) where
  -- `OutputSubscriptions`, and the atomic `subscriber_count` beside it
  pub record Subscriptions : Type 0 where
    pub subscribers : List (Key × List Tx)
    pub dropped : List (Key × ℕ)
    pub subscriber_count : ℕ

  -- One subscriber after the chunks: is it kept, the channel, and `dropped_count`.
  pub record Delivered : Type 0 where
    pub keep : Bool
    pub tx : Tx
    pub dropped_count : ℕ

  -- all the subscribers of one key
  pub record Drained : Type 0 where
    pub retained : List Tx
    pub removed_subscribers : ℕ
    pub dropped_count : ℕ

-- `decrement_subscriber_count`
unfoldable pub decrement_subscriber_count : ℕ → ℕ → ℕ
decrement_subscriber_count count amount = count - amount

module _ {Tx : Type 0} where
  -- `fetch_add` on an `AtomicU64` wraps around; `open_channel` is `crossbeam_bounded`
  unfoldable pub add_subscriber : (ℕ → Tx) → Key → ℕ → Subscriptions Tx → Subscriptions Tx
  add_subscriber open_channel key capacity s =
      let others = unwrap_or (get key s.subscribers) [] in
      record s {
        subscribers = insert key (others ++ open_channel capacity ∷ []) s.subscribers;
        subscriber_count = (s.subscriber_count + 1) % 2 ^ 64;
      }

  -- `subscribe_output`: `entries` is the capabilities of the record with an id. The result says whether
  -- there is a subscription.
  unfoldable pub subscribe_output :
      (ℕ → Tx)
      → (String → Option Capabilities)
      → String
      → Stream
      → ℕ
      → Subscriptions Tx
      → Result Error Bool × Subscriptions Tx
  subscribe_output open_channel entries shell_id stream capacity s =
      if capacity == 0 then (err zero_capacity, s) else elim (entries shell_id) [
        | none ↦ (ok false, s)
        | some c ↦
            if can_subscribe stream c
            then (ok true, add_subscriber open_channel (shell_id, stream) capacity s)
            else (err not_subscribable, s)
      ]

module _ {Tx : Type 0} (try_send : Tx → Chunk → Sent × Tx) where
  abbrev pub chunk_of : Key → List ℕ → ℕ → Chunk
  chunk_of key bytes dropped_count = record {
    shell_id = key.0;
    stream = key.1;
    bytes = bytes;
    dropped_before = dropped_count;
  }

  -- `match subscriber.tx.try_send(chunk)`: the loop goes on only after a chunk that was sent
  abbrev pub delivered_as : Sent → Tx → ℕ → Delivered Tx → Delivered Tx
  delivered_as sent tx d later = later
  delivered_as full tx d later = record { keep = false; tx = tx; dropped_count = (d + 1) % 2 ^ 64 }
  delivered_as disconnected tx d later = record { keep = false; tx = tx; dropped_count = d }

  -- the loop over the chunks
  unfoldable pub deliver : Key → List (List ℕ) → Tx → ℕ → Delivered Tx
  deliver key [] tx d = record { keep = true; tx = tx; dropped_count = d }
  deliver key (bytes ∷ chunks) tx d =
      let (how, tx') = try_send tx (chunk_of key bytes d) in
      delivered_as how tx' d (deliver key chunks tx' d)

  abbrev pub drained_with : Delivered Tx → Drained Tx → Drained Tx
  drained_with one later =
      if one.keep
      then record later { retained = one.tx ∷ later.retained }
      else record later { removed_subscribers = later.removed_subscribers + 1 }

  -- the loop over the subscribers
  unfoldable pub drain : Key → List (List ℕ) → List Tx → ℕ → Drained Tx
  drain key chunks [] d = record { retained = []; removed_subscribers = 0; dropped_count = d }
  drain key chunks (tx ∷ txs) d =
      let one = deliver key chunks tx d in drained_with one (drain key chunks txs one.dropped_count)

  unfoldable pub store : Key → Drained Tx → Subscriptions Tx → Subscriptions Tx
  store key r s =
      let others = remove key s.subscribers in
      record {
        subscribers = if is_empty r.retained then others else insert key r.retained others;
        dropped = insert key r.dropped_count s.dropped;
        subscriber_count =
            if ltb 0 r.removed_subscribers
            then decrement_subscriber_count s.subscriber_count r.removed_subscribers
            else s.subscriber_count;
      }

  -- `broadcast_output_batch` behind its early return, under the lock
  unfoldable pub broadcast_locked : Key → List (List ℕ) → Subscriptions Tx → Subscriptions Tx
  broadcast_locked key chunks s = elim (get key s.subscribers) [
    | none ↦ s
    | some txs ↦ store key (drain key chunks txs (unwrap_or (get key s.dropped) 0)) s
  ]

  unfoldable pub broadcast_output_batch :
      String → Stream → List (List ℕ) → Subscriptions Tx → Subscriptions Tx
  broadcast_output_batch shell_id stream chunks s =
      if is_empty chunks || s.subscriber_count == 0
      then s
      else broadcast_locked (shell_id, stream) chunks s

  -- `broadcast_output`
  unfoldable pub broadcast_output : String → Stream → List ℕ → Subscriptions Tx → Subscriptions Tx
  broadcast_output shell_id stream bytes s =
      if is_empty bytes || s.subscriber_count == 0
      then s
      else broadcast_output_batch shell_id stream (bytes ∷ []) s

-- ===== src/Output/Counted.antt =====
-- `subscriber_count` of src/native_runtime.rs is the number of subscribers.
use ferrous_framework.Base.{
  ℕ, suc, ◌+◌, ◌^◌, ◌<◌, ◌≡◌, refl, sym, String, false, ◌||◌, Option, none, some, List, [], ◌∷◌,
  ◌++◌, length, ◌==◌, arith, Bool-cases, Option-cases, inl, inr, ◌⊎◌, length-append,
}
use ferrous_framework.Shell.Record.{Capabilities}
use ferrous_framework.Output.Map.{
  Stream, Key, get, insert, remove, Unique, Unique-remove, Unique-insert, get-remove, total,
  size_of, total-remove, total-insert, Filled, Filled-remove, Filled-insert, get_of_total,
}
use ferrous_framework.Output.Defs.{
  Chunk, Sent, is_empty, unwrap_or, can_subscribe, Subscriptions, Delivered, Drained,
  add_subscriber, subscribe_output, decrement_subscriber_count, deliver, drained_with, drain, store,
  broadcast_locked, broadcast_output_batch,
}

pub record IsCounted {Tx : Type 0} (s : Subscriptions Tx) : Type 0 where
  pub unique : Unique s.subscribers
  pub filled : Filled s.subscribers
  pub count : s.subscriber_count ≡ total s.subscribers

size_of_unwrap : {A : Type 0} (o : Option (List A)) → size_of o ≡ length (unwrap_or o [])
size_of_unwrap none = refl
size_of_unwrap (some xs) = refl

List-cases : {A : Type 0} (xs : List A) → (xs ≡ []) ⊎ ((y : A) × (ys : List A) × (xs ≡ y ∷ ys))
List-cases [] = inl refl
List-cases (y ∷ ys) = inr (y, ys, refl)

module _ {Tx : Type 0} (try_send : Tx → Chunk → Sent × Tx) where
  pub drain-split :
      (key : Key) (chunks : List (List ℕ)) (txs : List Tx) (d : ℕ)
      → (let r = drain try_send key chunks txs d in
          length r.retained + r.removed_subscribers ≡ length txs)
  unfolding drain
  drain-split key chunks [] d = omega arith
  drain-split key chunks (tx ∷ txs) d =
      let one = deliver try_send key chunks tx d in
      let later = drain-split key chunks txs one.dropped_count in
      with one (drain try_send key chunks txs one.dropped_count) later
    where
      with :
          (one : Delivered Tx) (later : Drained Tx)
          → length later.retained + later.removed_subscribers ≡ length txs
          → (let r = drained_with try_send one later in
              length r.retained + r.removed_subscribers ≡ suc (length txs))
      with one later h = ground arith

  store-IsCounted :
      (key : Key) (txs : List Tx) (r : Drained Tx) (s : Subscriptions Tx)
      → IsCounted s
      → get key s.subscribers ≡ some txs
      → length r.retained + r.removed_subscribers ≡ length txs
      → IsCounted (store try_send key r s)
  unfolding store decrement_subscriber_count
  store-IsCounted key txs r s c found split =
      let others = remove key s.subscribers in
      let gone = get-remove key s.subscribers c.unique in
      let fewer : total others + size_of (get key s.subscribers) ≡ total s.subscribers =
        total-remove key s.subscribers in
      let more : total (insert key r.retained others) + size_of (get key others)
          ≡ total others + length r.retained =
        total-insert key r.retained others in
      let unique = Unique-remove key s.subscribers c.unique in
      let filled = Filled-remove key s.subscribers c.filled in
      elim (List-cases r.retained) [
        | inl e ↦
            rw e (record { unique = unique; filled = filled; count = ground (arith, c.count) })
        | inr (tx, rest, e) ↦ rw e (record {
          unique = Unique-insert key (tx ∷ rest) others unique;
          filled = Filled-insert key (tx ∷ rest) others (omega arith) filled;
          count = ground (arith, c.count);
        })
      ]

  broadcast_locked-IsCounted :
      (key : Key) (chunks : List (List ℕ)) (s : Subscriptions Tx)
      → IsCounted s
      → IsCounted (broadcast_locked try_send key chunks s)
  unfolding broadcast_locked
  broadcast_locked-IsCounted key chunks s c = elim (Option-cases (get key s.subscribers)) [
    | inl q ↦ rw (q, broadcast_locked) c
    | inr (txs, q) ↦
        rw (q, broadcast_locked)
          (store-IsCounted key txs _ s c q
            (drain-split key chunks txs (unwrap_or (get key s.dropped) 0)))
  ]

  -- `broadcast_output_batch` keeps, with any channels, that `subscriber_count` is the number of
  -- subscribers in the map, that no key has an empty list, and that no key stands twice.
  pub broadcast_output_batch-IsCounted :
      (shell_id : String) (stream : Stream) (chunks : List (List ℕ)) (s : Subscriptions Tx)
      → IsCounted s
      → IsCounted (broadcast_output_batch try_send shell_id stream chunks s)
  unfolding broadcast_output_batch
  broadcast_output_batch-IsCounted shell_id stream chunks s c =
      elim (Bool-cases (is_empty chunks || s.subscriber_count == 0)) [
        | inl e ↦ rw e c
        | inr e ↦ rw e (broadcast_locked-IsCounted (shell_id, stream) chunks s c)
      ]

  locked_none :
      (key : Key) (chunks : List (List ℕ)) (s : Subscriptions Tx)
      → get key s.subscribers ≡ none
      → broadcast_locked try_send key chunks s ≡ s
  unfolding broadcast_locked
  locked_none key chunks s q = rw (q, broadcast_locked) refl

  -- Where the count is right and the batch has a chunk, the early return of
  -- `broadcast_output_batch` on a count of zero changes nothing: the result is the same as without
  -- it.
  pub broadcast_output_batch-locked :
      (shell_id : String) (stream : Stream) (chunks : List (List ℕ)) (s : Subscriptions Tx)
      → IsCounted s
      → is_empty chunks ≡ false
      → broadcast_output_batch try_send shell_id stream chunks s
        ≡ broadcast_locked try_send (shell_id, stream) chunks s
  unfolding broadcast_output_batch
  broadcast_output_batch-locked shell_id stream chunks s c some_chunks =
      elim (Bool-cases (s.subscriber_count == 0)) [
        | inl e ↦
            let gone : get (shell_id, stream) s.subscribers ≡ none =
              get_of_total (shell_id, stream) s.subscribers c.filled (ground (arith, c.count)) in
            rw (some_chunks, e) (sym (locked_none (shell_id, stream) chunks s gone))
        | inr e ↦ rw (some_chunks, e) refl
      ]

module _ {Tx : Type 0} where
  add_subscriber-IsCounted :
      (open_channel : ℕ → Tx) (key : Key) (capacity : ℕ) (s : Subscriptions Tx)
      → IsCounted s
      → s.subscriber_count + 1 < 2 ^ 64
      → IsCounted (add_subscriber open_channel key capacity s)
  unfolding add_subscriber
  add_subscriber-IsCounted open_channel key capacity s c room = record {
    unique = Unique-insert key _ s.subscribers c.unique;
    filled = Filled-insert key _ s.subscribers (omega (arith, longer)) c.filled;
    count = omega (arith, longer, more, c.count);
  }
    where
      others : List Tx
      others = unwrap_or (get key s.subscribers) []

      size : size_of (get key s.subscribers) ≡ length others
      size = size_of_unwrap (get key s.subscribers)

      longer : length (others ++ open_channel capacity ∷ []) ≡ size_of (get key s.subscribers) + 1
      longer = omega (arith, length-append others (open_channel capacity ∷ []), size)

      more :
          total (insert key (others ++ open_channel capacity ∷ []) s.subscribers)
            + size_of (get key s.subscribers)
          ≡ total s.subscribers + length (others ++ open_channel capacity ∷ [])
      more = total-insert key (others ++ open_channel capacity ∷ []) s.subscribers

  -- `subscribe_output` keeps the count right on every branch, as long as the counter stays below
  -- 2^64.
  pub subscribe_output-IsCounted :
      (open_channel : ℕ → Tx) (entries : String → Option Capabilities) (shell_id : String)
      (stream : Stream) (capacity : ℕ) (s : Subscriptions Tx)
      → IsCounted s
      → s.subscriber_count + 1 < 2 ^ 64
      → IsCounted (subscribe_output open_channel entries shell_id stream capacity s).1
  unfolding subscribe_output
  subscribe_output-IsCounted open_channel entries shell_id stream capacity s c room =
      elim (Bool-cases (capacity == 0)) [
        | inl e ↦ rw e c
        | inr e ↦ elim (Option-cases (entries shell_id)) [
          | inl q ↦ rw (e, q, subscribe_output) c
          | inr (found, q) ↦ elim (Bool-cases (can_subscribe stream found)) [
            | inl can ↦
                rw (e, q, can, subscribe_output)
                  (add_subscriber-IsCounted open_channel (shell_id, stream) capacity s c room)
            | inr shut ↦ rw (e, q, shut, subscribe_output) c
          ]
        ]
      ]

-- ===== src/Output/Delivery.antt =====
-- Which subscribers a broadcast of src/native_runtime.rs keeps, and what they have received.
use ferrous_framework.Base.{
  ℕ, ◌≡◌, refl, ap, sym, ◌∙◌, true, false, List, [], ◌∷◌, ◌++◌, map, append_assoc, append-nil,
  arith, Bool-cases, inl, inr, ◌⊎◌,
}
use ferrous_framework.Output.Map.{Key}
use ferrous_framework.Output.Defs.{
  Chunk, Sent, sent, full, disconnected, chunk_of, delivered_as, deliver, drain,
}

-- `queue` is what was sent into a channel so far: a sending that succeeds adds its chunk at the end.
pub record IsChannel {Tx : Type 0} (try_send : Tx → Chunk → Sent × Tx) (queue : Tx → List Chunk)
    : Type 0 where
  pub sends :
      (tx tx' : Tx) (c : Chunk) → try_send tx c ≡ (sent, tx') → queue tx' ≡ queue tx ++ c ∷ []

module _ {Tx : Type 0} (try_send : Tx → Chunk → Sent × Tx) (queue : Tx → List Chunk) (key : Key)
    (chunks : List (List ℕ)) where
  abbrev pub numbered : ℕ → List (List ℕ) → List Chunk
  numbered d bs = map (λ bytes. chunk_of try_send key bytes d) bs

  -- A prefix of the chunks was sent to a channel that stood at `tx`, and the next one was not.
  pub data Fails : List (List ℕ) → Tx → ℕ → Type 0 where
    fails_now :
        {bytes : List ℕ} {bs : List (List ℕ)} {tx tx' : Tx} {d : ℕ} (how : Sent)
        → (how ≡ full) ⊎ (how ≡ disconnected)
        → try_send tx (chunk_of try_send key bytes d) ≡ (how, tx')
        → Fails (bytes ∷ bs) tx d
    fails_later :
        {bytes : List ℕ} {bs : List (List ℕ)} {tx tx' : Tx} {d : ℕ}
        → try_send tx (chunk_of try_send key bytes d) ≡ (sent, tx')
        → Fails bs tx' d
        → Fails (bytes ∷ bs) tx d

  -- The channels that are kept, in their order: each has received all the chunks, behind what it had,
  -- with one number of dropped chunks; the others are gone, because a chunk could not be sent to them.
  pub data Received : List Tx → List Tx → Type 0 where
    none_left : Received [] []
    kept :
        (tx tx' : Tx) (d : ℕ) {txs rest : List Tx}
        → queue tx' ≡ queue tx ++ numbered d chunks
        → Received txs rest
        → Received (tx ∷ txs) (tx' ∷ rest)
    gone :
        (tx : Tx) (d : ℕ) {txs rest : List Tx}
        → Fails chunks tx d
        → Received txs rest
        → Received (tx ∷ txs) rest

  deliver-all :
      (channel : IsChannel try_send queue) (bs : List (List ℕ)) (tx : Tx) (d : ℕ)
      → (deliver try_send key bs tx d).keep ≡ true
      → queue (deliver try_send key bs tx d).tx ≡ queue tx ++ numbered d bs
  unfolding deliver
  deliver-all channel [] tx d h = sym (append-nil (queue tx))
  deliver-all channel (b ∷ bs) tx d h =
      step (try_send tx (chunk_of try_send key b d)) refl h (λ x. deliver-all channel bs x d)
    where
      step :
          (o : Sent × Tx)
          → try_send tx (chunk_of try_send key b d) ≡ o
          → (delivered_as try_send o.0 o.1 d (deliver try_send key bs o.1 d)).keep ≡ true
          → ((x : Tx)
              → (deliver try_send key bs x d).keep ≡ true
              → queue (deliver try_send key bs x d).tx ≡ queue x ++ numbered d bs)
          → queue (delivered_as try_send o.0 o.1 d (deliver try_send key bs o.1 d)).tx
            ≡ queue tx ++ numbered d (b ∷ bs)
      step (sent, x) q k ih =
          ih x k
          ∙ ap (λ z. z ++ numbered d bs) (channel.sends tx x _ q)
          ∙ append_assoc (queue tx) (chunk_of try_send key b d ∷ []) (numbered d bs)
      step (full, x) q k ih = absurd (ground arith)
      step (disconnected, x) q k ih = absurd (ground arith)

  deliver-Fails :
      (bs : List (List ℕ)) (tx : Tx) (d : ℕ)
      → (deliver try_send key bs tx d).keep ≡ false
      → Fails bs tx d
  unfolding deliver
  deliver-Fails [] tx d h = absurd (ground arith)
  deliver-Fails (b ∷ bs) tx d h =
      step (try_send tx (chunk_of try_send key b d)) refl h (λ x. deliver-Fails bs x d)
    where
      step :
          (o : Sent × Tx)
          → try_send tx (chunk_of try_send key b d) ≡ o
          → (delivered_as try_send o.0 o.1 d (deliver try_send key bs o.1 d)).keep ≡ false
          → ((x : Tx) → (deliver try_send key bs x d).keep ≡ false → Fails bs x d)
          → Fails (b ∷ bs) tx d
      step (sent, x) q k ih = fails_later q (ih x k)
      step (full, x) q k ih = fails_now full (inl refl) q
      step (disconnected, x) q k ih = fails_now disconnected (inr refl) q

  -- With channels to which a successful `try_send` adds its chunk at the end, the subscribers that
  -- a broadcast retains are the ones it began with in their order, and each that is gone is one to
  -- which a chunk was not sent, after the chunks before it were; each that is kept has received
  -- every chunk of the batch in order, all with one `dropped_before`.
  pub drain-Received :
      IsChannel try_send queue
      → (txs : List Tx) (d : ℕ) → Received txs (drain try_send key chunks txs d).retained
  unfolding drain
  drain-Received channel [] d = none_left
  drain-Received channel (tx ∷ txs) d =
      let one = deliver try_send key chunks tx d in
      let later = drain-Received channel txs one.dropped_count in
      elim (Bool-cases one.keep) [
        | inl e ↦ rw e (kept tx one.tx d (deliver-all channel chunks tx d e) later)
        | inr e ↦ rw e (gone tx d (deliver-Fails chunks tx d e) later)
      ]

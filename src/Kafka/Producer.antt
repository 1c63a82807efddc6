-- ===== src/Kafka/Producer.antt =====
-- The producer of option-b/internal/kafka/client.go. The Kafka client is a parameter: a type of broker
-- states and the calls that `Produce` and `ProduceInTxn` make.
use lotr_kafka_strategy_game.Prelude.{
  ℕ, String, ◌≡◌, refl, ◌∙◌, ap, ◌⊎◌, inl, inr, Bool, true, false, Bool-cases, Option, none, some,
  Option-cases, List, [], ◌∷◌, ◌++◌, if◌then◌else◌,
}
use lotr_kafka_strategy_game.Prelude.Results.{Result, ok, err, Result-cases}
use lotr_kafka_strategy_game.Kafka.Serde.{Avro, SerdeError, encode}

-- A record of the client's library, as the producer fills it in.
pub record Produced : Type 0 where
  pub topic : String
  pub key : String
  pub value : List ℕ

-- `BeginTransaction` (`none` for its error), `ProduceSync` and `EndTransaction` (false for theirs).
pub record Client (Broker : Type 0) : Type 0 where
  pub begin_transaction : Broker → Option Broker
  pub produce_sync : Produced → Broker → Broker × Bool
  pub try_abort : Broker → Broker
  pub try_commit : Broker → Broker × Bool

pub data ProduceError : Type 0 where
  encoding : SerdeError → ProduceError
  no_transaction not_written not_committed : ProduceError

module _ {Schema Value Broker : Type 0} (avro : Avro Schema Value) (client : Client Broker) where
  unfoldable pub produce :
      (ℕ → Option Schema)
      → String
      → String
      → ℕ
      → Value
      → Broker
      → Broker × Result ProduceError (Unit {0})
  produce schemas topic key id v b = elim (encode avro schemas id v) [
    | err e ↦ (b, err (encoding e))
    | ok value ↦
        let (b', written) =
          client.produce_sync (record { topic = topic; key = key; value = value }) b in
        (b', if written then ok tt else err not_written)
  ]

  -- The part of `ProduceInTxn` after the transaction has begun.
  unfoldable pub write_and_end : Produced → Broker → Broker × Result ProduceError (Unit {0})
  write_and_end rec b =
      let (b', written) = client.produce_sync rec b in
      if written
      then (let (b'', committed) = client.try_commit b' in
          (b'', if committed then ok tt else err not_committed))
      else (client.try_abort b', err not_written)

  unfoldable pub produce_in_txn :
      (ℕ → Option Schema)
      → String
      → String
      → ℕ
      → Value
      → Broker
      → Broker × Result ProduceError (Unit {0})
  unfolding write_and_end
  produce_in_txn schemas topic key id v b = elim (encode avro schemas id v) [
    | err e ↦ (b, err (encoding e))
    | ok value ↦ elim (client.begin_transaction b) [
      | none ↦ (b, err no_transaction)
      | some b' ↦ write_and_end (record { topic = topic; key = key; value = value }) b'
    ]
  ]

-- What Kafka promises of transactions, for the records that a consumer sees and those that wait for
-- the end of the transaction. A commit shows all that waits or nothing; one that ends in an error may
-- have done either.
pub record IsTransactional {Broker : Type 0} (client : Client Broker)
    (visible pending : Broker → List Produced) : Type 0 where
  pub begins :
      (b b' : Broker)
      → client.begin_transaction b ≡ some b'
      → (visible b' ≡ visible b) × (pending b' ≡ [])
  pub holds_back : (r : Produced) (b : Broker) → visible (client.produce_sync r b).0 ≡ visible b
  pub writes :
      (r : Produced) (b : Broker)
      → (client.produce_sync r b).1 ≡ true
      → pending (client.produce_sync r b).0 ≡ pending b ++ r ∷ []
  pub aborts : (b : Broker) → visible (client.try_abort b) ≡ visible b
  pub commits :
      (b : Broker)
      → (client.try_commit b).1 ≡ true
      → visible (client.try_commit b).0 ≡ visible b ++ pending b
  pub all_or_nothing :
      (b : Broker)
      → (client.try_commit b).1 ≡ false
      → (visible (client.try_commit b).0 ≡ visible b)
        ⊎ (visible (client.try_commit b).0 ≡ visible b ++ pending b)

-- The encoded record is visible, behind those that were.
abbrev Shows :
    {Broker : Type 0}
    → (Broker → List Produced)
    → Result SerdeError (List ℕ)
    → String
    → String
    → Broker
    → Broker
    → Type 0
Shows visible encoded topic key b b' =
    (value : List ℕ) × (encoded ≡ ok value)
    × (visible b' ≡ visible b ++ record { topic = topic; key = key; value = value } ∷ [])

-- What a call has made visible: the encoded record on success, nothing on an error, and either of the
-- two if the commit failed.
abbrev pub IsAtomic :
    {Broker : Type 0}
    → (Broker → List Produced)
    → Result SerdeError (List ℕ)
    → String
    → String
    → Broker
    → Broker × Result ProduceError (Unit {0})
    → Type 0
IsAtomic visible encoded topic key b (b', ok _) = Shows visible encoded topic key b b'
IsAtomic visible encoded topic key b (b', err not_committed) =
    (visible b' ≡ visible b) ⊎ Shows visible encoded topic key b b'
IsAtomic visible encoded topic key b (b', err _) = visible b' ≡ visible b

module _ {Schema Value Broker : Type 0} (avro : Avro Schema Value) (client : Client Broker)
    (visible pending : Broker → List Produced)
    (kafka : IsTransactional client visible pending) where
  -- A `ProduceInTxn` that returns no error has made exactly its record visible, behind those that
  -- were. One that returns an error of the codec, of the start of the transaction or of the write has
  -- made nothing visible; one that returns the error of the commit has made its record visible, or
  -- nothing.
  pub produce_in_txn-IsAtomic :
      (schemas : ℕ → Option Schema) (topic key : String) (id : ℕ) (v : Value) (b : Broker)
      → IsAtomic visible
          (encode avro schemas id v)
          topic
          key
          b
          (produce_in_txn avro client schemas topic key id v b)
  unfolding produce_in_txn
  produce_in_txn-IsAtomic schemas topic key id v b =
      elim (Result-cases (encode avro schemas id v)) [
        | inr (e, q) ↦ rw (q, produce_in_txn) refl
        | inl (value, q) ↦ elim (Option-cases (client.begin_transaction b)) [
          | inl n ↦ rw (q, n, produce_in_txn) refl
          | inr (b1, g) ↦
              let rec : Produced = record { topic = topic; key = key; value = value } in
              let b2 = (client.produce_sync rec b1).0 in
              let (same, none_pending) = kafka.begins b b1 g in
              let before : visible b2 ≡ visible b = kafka.holds_back rec b1 ∙ same in
              let waiting : (client.produce_sync rec b1).1 ≡ true
                  → visible b2 ++ pending b2 ≡ visible b ++ rec ∷ [] =
                λ t.
                  ap (λ x. x ++ pending b2) before
                  ∙ ap (λ x. visible b ++ x)
                      (kafka.writes rec b1 t ∙ ap (λ x. x ++ rec ∷ []) none_pending) in
              elim (Bool-cases (client.produce_sync rec b1).1) [
                | inr f ↦ rw (q, g, f, produce_in_txn) (kafka.aborts b2 ∙ before)
                | inl t ↦ elim (Bool-cases (client.try_commit b2).1) [
                  | inr f ↦
                      rw (q, g, t, f, produce_in_txn)
                        (elim (kafka.all_or_nothing b2 f) [
                          | inl kept ↦ inl (kept ∙ before)
                          | inr shown ↦ inr (value, refl, shown ∙ waiting t)
                        ])
                  | inl d ↦
                      rw (q, g, t, d, produce_in_txn) (value, refl, kafka.commits b2 d ∙ waiting t)
                ]
              ]
        ]
      ]

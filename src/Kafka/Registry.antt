-- ===== src/Kafka/Registry.antt =====
-- option-b/internal/kafka/registry.go: the schemas loaded at the start. The answers of the registry,
-- `LatestID`, are a parameter.
use lotr_kafka_strategy_game.Prelude.{
  ℕ, String, ◌≡◌, ◌≢◌, subst, inl, inr, Option, none, some, Option-cases, List, [], ◌∷◌, eqb, arith,
  if◌then◌else◌, Dict, empty, insert, Has, Has-insert, Has-insert_self, insert_induction,
}
use lotr_kafka_strategy_game.Prelude.Results.{Result, ok, err, ◌>>=◌, Result-cases}
use lotr_kafka_strategy_game.Kafka.Serde.{Avro, SerdeError, no_schema, register, encode}

-- An answer of `LatestID`: the id and the schema text, or the error.
pub data RegistryError : Type 0 where
  unavailable : String → RegistryError
  unparsed : SerdeError → RegistryError

abbrev pub Latest : Type 0
Latest = String → Result RegistryError (ℕ × String)

abbrev pub parsed {ℓ} : {A : Type ℓ} → Result SerdeError A → Result RegistryError A
parsed (ok a) = ok a
parsed (err e) = err (unparsed e)

-- What the loop of `LoadSchemas` writes: the serde's schemas and the ids by name.
pub record Loading (Schema : Type 0) : Type 0 where
  pub schemas : ℕ → Option Schema
  pub ids : Dict ℕ

-- Every name of the subjects has an id.
abbrev pub AllNamed : List (String × String) → Dict ℕ → Type 0
AllNamed [] ids = Unit
AllNamed ((name, subject) ∷ rest) ids = Has ids name × AllNamed rest ids

module _ {Schema Value : Type 0} (avro : Avro Schema Value) (latest : Latest) where
  -- One round, for a name and its subject.
  unfoldable pub load_schema :
      String → String → Loading Schema → Result RegistryError (Loading Schema)
  unfolding register
  load_schema name subject l = latest subject >>= λ (id, text).
      parsed (register avro id text l.schemas) >>= λ schemas.
      ok (record { schemas = schemas; ids = insert l.ids name id })

  -- The list gives the order of the range over the subjects.
  unfoldable pub load_each :
      List (String × String) → Loading Schema → Result RegistryError (Loading Schema)
  unfolding load_schema
  load_each [] l = ok l
  load_each ((name, subject) ∷ rest) l = load_schema name subject l >>= λ l'. load_each rest l'

  unfoldable pub load_schemas :
      List (String × String) → (ℕ → Option Schema) → Result RegistryError (Loading Schema)
  unfolding load_each
  load_schemas subjects schemas = load_each subjects (record { schemas = schemas; ids = empty })

  -- Every id that a name has is that of a schema of the serde.
  abbrev pub IsReady : Loading Schema → Type 0
  IsReady l = (name : String) (id : ℕ) → l.ids name ≡ some id → l.schemas id ≢ none

  register_keeps :
      (id : ℕ) (text : String) (schemas schemas' : ℕ → Option Schema)
      → register avro id text schemas ≡ ok schemas'
      → (schemas' id ≢ none) × ((j : ℕ) → schemas j ≢ none → schemas' j ≢ none)
  unfolding register
  register_keeps id text schemas schemas' e = elim (Option-cases (avro.parse text)) [
    | inl n ↦ absurd (cc (rw (n, register) at e))
    | inr (sc, q) ↦
        let same : (λ j. if eqb j id then some sc else schemas j) ≡ schemas' =
          cc (rw (q, register) at e) in
        subst (λ m. (m id ≢ none) × ((j : ℕ) → schemas j ≢ none → m j ≢ none)) same
          (λ h. ground (arith, h), λ j old h. ground (arith, old, h))
  ]

  -- One round keeps the names that are there, adds its own, and registers its schema.
  load_schema_keeps :
      (name subject : String) (l l' : Loading Schema)
      → load_schema name subject l ≡ ok l'
      → IsReady l
      → IsReady l' × Has l'.ids name × ((k : String) → Has l.ids k → Has l'.ids k)
  unfolding load_schema
  load_schema_keeps name subject l l' e ready = elim (Result-cases (latest subject)) [
    | inr (x, q) ↦ absurd (cc (rw (q, load_schema) at e))
    | inl ((id, text), q) ↦ elim (Result-cases (register avro id text l.schemas)) [
      | inr (x, r) ↦ absurd (cc (rw (q, r, load_schema) at e))
      | inl (schemas, r) ↦
          let next : Loading Schema = record { schemas = schemas; ids = insert l.ids name id } in
          let same : next ≡ l' = cc (rw (q, r, load_schema) at e) in
          let (own, old) = register_keeps id text l.schemas schemas r in
          subst (λ m. IsReady m × Has m.ids name × ((k : String) → Has l.ids k → Has m.ids k)) same
            (
              insert_induction (λ _ j. schemas j ≢ none) l.ids name id own
                  (λ k j h. old j (ready k j h)),
              Has-insert_self l.ids name id,
              λ k h. Has-insert l.ids name k id h,
            )
    ]
  ]

  load_each_keeps :
      (subjects : List (String × String)) (l l' : Loading Schema)
      → load_each subjects l ≡ ok l'
      → IsReady l
      → IsReady l' × AllNamed subjects l'.ids × ((k : String) → Has l.ids k → Has l'.ids k)
  unfolding load_each
  load_each_keeps [] l l' e ready =
      subst (λ m. IsReady m × Unit {0} × ((k : String) → Has l.ids k → Has m.ids k)) (cc e)
        (ready, tt, λ k h. h)
  load_each_keeps ((name, subject) ∷ rest) l l' e ready =
      elim (Result-cases (load_schema name subject l)) [
        | inr (x, q) ↦ absurd (cc (rw (q, load_each) at e))
        | inl (m, q) ↦
            let (ready', here, grown) = load_schema_keeps name subject l m q ready in
            let (last, named, more) = load_each_keeps rest m l' (rw (q, load_each) at e) ready' in
            (last, (more name here, named), λ k h. more k (grown k h))
      ]

  encode-registered :
      (schemas : ℕ → Option Schema) (id : ℕ) (v : Value)
      → schemas id ≢ none
      → encode avro schemas id v ≢ err (no_schema id)
  unfolding encode
  encode-registered schemas id v h e = elim (Option-cases (schemas id)) [
    | inl n ↦ h n
    | inr (sc, q) ↦ elim (Option-cases (avro.marshal sc v)) [
      | inl n ↦ cc (rw (q, n, encode) at e)
      | inr (payload, p) ↦ cc (rw (q, p, encode) at e)
    ]
  ]

  -- When `LoadSchemas` succeeds, every subject's name has an id, and no record fails to be encoded for
  -- want of a schema under the id of a name.
  pub load_schemas-ready :
      (subjects : List (String × String)) (schemas : ℕ → Option Schema) (l : Loading Schema)
      → load_schemas subjects schemas ≡ ok l
      → AllNamed subjects l.ids
        × ((name : String) (id : ℕ) (v : Value)
            → l.ids name ≡ some id
            → encode avro l.schemas id v ≢ err (no_schema id))
  unfolding load_schemas
  load_schemas-ready subjects schemas l e =
      let (ready, named, _) =
        load_each_keeps subjects (record { schemas = schemas; ids = empty }) l e
          (λ k j h. absurd (cc h)) in
      (named, λ name id v h. encode-registered l.schemas id v (ready name id h))

-- ===== src/Kafka/Serde.antt =====
-- option-b/internal/kafka/serde.go. A byte is a natural below 256, a schema id a natural. The Avro
-- library is a parameter.
pub mod RoundTrip
use lotr_kafka_strategy_game.Prelude.{
  ℕ, ◌+◌, ◌*◌, ◌/◌, ◌%◌, ◌^◌, String, Option, none, some, List, [], ◌∷◌, eqb, if◌then◌else◌,
}
use lotr_kafka_strategy_game.Prelude.Results.{Result, ok, err, ◌>>=◌}

-- `avro.Parse`, `avro.Marshal` and `avro.Unmarshal`, `none` for an error.
pub record Avro (Schema Value : Type 0) : Type 0 where
  pub parse : String → Option Schema
  pub marshal : Schema → Value → Option (List ℕ)
  pub unmarshal : Schema → List ℕ → Option Value

pub data SerdeError : Type 0 where
  parse_error no_schema : ℕ → SerdeError
  avro_error bad_wire_format : SerdeError

abbrev pub or_error {ℓ} : {A : Type ℓ} → Option A → SerdeError → Result SerdeError A
or_error none e = err e
or_error (some a) e = ok a

-- `PutUint32(out[1:5], uint32(id))` behind the magic byte.
unfoldable pub header : ℕ → List ℕ → List ℕ
header id payload =
    0
    ∷ (id % 2 ^ 32 / 2 ^ 24)
    ∷ (id % 2 ^ 32 / 2 ^ 16 % 256)
    ∷ (id % 2 ^ 32 / 2 ^ 8 % 256)
    ∷ (id % 2 ^ 32 % 256)
    ∷ payload

-- `int(binary.BigEndian.Uint32(data[1:5]))`
abbrev pub schema_id : ℕ → ℕ → ℕ → ℕ → ℕ
schema_id a b c d = a * 2 ^ 24 + b * 2 ^ 16 + c * 2 ^ 8 + d

-- The id and the payload; `none` is `errBadWireFormat`.
unfoldable pub split_header : List ℕ → Option (ℕ × List ℕ)
split_header (m ∷ a ∷ b ∷ c ∷ d ∷ payload) =
    if eqb m 0 then some (schema_id a b c d, payload) else none
split_header _ = none

module _ {Schema Value : Type 0} (avro : Avro Schema Value) where
  -- The map `schemas` is the argument.
  unfoldable pub register : ℕ → String → (ℕ → Option Schema) → Result SerdeError (ℕ → Option Schema)
  register id text schemas = elim (avro.parse text) [
    | none ↦ err (parse_error id)
    | some sc ↦ ok (λ j. if eqb j id then some sc else schemas j)
  ]

  unfoldable pub encode : (ℕ → Option Schema) → ℕ → Value → Result SerdeError (List ℕ)
  unfolding header
  encode schemas id v = or_error (schemas id) (no_schema id) >>= λ sc.
      or_error (avro.marshal sc v) avro_error >>= λ payload. ok (header id payload)

  -- `Decode` and `DecodeGeneric`, whose targets are the `Value` of their `Avro`.
  unfoldable pub decode : (ℕ → Option Schema) → List ℕ → Result SerdeError (ℕ × Value)
  unfolding split_header
  decode schemas bytes = or_error (split_header bytes) bad_wire_format >>= λ (id, payload).
      or_error (schemas id) (no_schema id) >>= λ sc.
      or_error (avro.unmarshal sc payload) avro_error >>= λ v. ok (id, v)

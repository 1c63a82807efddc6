-- ===== src/Kafka/Tests.antt =====
-- Concrete runs of option-b/internal/kafka: an Avro library that writes a number as one byte, and a
-- broker of two lists.
use lotr_kafka_strategy_game.Prelude.{
  ℕ, String, ◌≡◌, ◌≢◌, ◌<◌, ◌^◌, refl, ◌↔◌, ◌==◌, Bool, true, false, inr, Option, none, some, List,
  [], ◌∷◌, ◌++◌, arith, eqb, if◌then◌else◌,
}
use lotr_kafka_strategy_game.Prelude.Results.{ok, err}
use lotr_kafka_strategy_game.Kafka.Serde.{Avro, no_schema, header, split_header, encode, decode}
use lotr_kafka_strategy_game.Kafka.Serde.RoundTrip.{ReadsBack, split_header_iff, decode-encode}
use lotr_kafka_strategy_game.Kafka.Registry.{
  Latest, Loading, AllNamed, load_schemas, load_schemas-ready,
}
use lotr_kafka_strategy_game.Kafka.Producer.{
  Produced, Client, IsTransactional, IsAtomic, produce_in_txn, produce_in_txn-IsAtomic,
}

abbrev read_byte : List ℕ → Option ℕ
read_byte [] = none
read_byte (b ∷ bs) = some b

abbrev bytes : Avro String ℕ
bytes = record {
  parse = λ text. some text;
  marshal = λ sc v. some (v ∷ []);
  unmarshal = λ sc payload. read_byte payload;
}

abbrev schemas : ℕ → Option String
schemas id = if eqb id 7 then some "byte" else none

bytes-ReadsBack : ReadsBack bytes
bytes-ReadsBack sc v payload e = ground arith

split_header_iff_example :
    (split_header (0 ∷ 0 ∷ 0 ∷ 1 ∷ 2 ∷ 9 ∷ []) ≡ some (258, 9 ∷ []))
    ↔ ((258 < 2 ^ 32) × (0 ∷ 0 ∷ 0 ∷ 1 ∷ 2 ∷ 9 ∷ [] ≡ header 258 (9 ∷ [])))
split_header_iff_example = split_header_iff (0 ∷ 0 ∷ 0 ∷ 1 ∷ 2 ∷ 9 ∷ []) 258 (9 ∷ []) (omega arith)

encoded : encode bytes schemas 7 65 ≡ ok (header 7 (65 ∷ []))
unfolding encode
encoded = refl

decode-encode_example : decode bytes schemas (header 7 (65 ∷ [])) ≡ ok (7, 65)
decode-encode_example =
    decode-encode bytes bytes-ReadsBack schemas 7 65 (header 7 (65 ∷ [])) (omega arith) encoded

abbrev latest : Latest
latest subject = ok (7, subject)

abbrev subjects : List (String × String)
subjects = ("UnitMoved", "UnitMoved-value") ∷ []

abbrev loading : Loading String
loading = record {
  schemas = λ j. if eqb j 7 then some "UnitMoved-value" else none;
  ids = λ k. if "UnitMoved" == k then some 7 else none;
}

loaded : load_schemas bytes latest subjects (λ id. none) ≡ ok loading
unfolding load_schemas
loaded = refl

load_schemas-ready_example :
    AllNamed subjects loading.ids
    × ((name : String) (id : ℕ) (v : ℕ)
        → loading.ids name ≡ some id
        → encode bytes loading.schemas id v ≢ err (no_schema id))
load_schemas-ready_example = load_schemas-ready bytes latest subjects (λ id. none) loading loaded

-- What is visible, what waits in a transaction, and whether the answer to a commit arrives.
record Broker : Type 0 where
  shown : List Produced
  waiting : List Produced
  reachable : Bool

abbrev client : Client Broker
client = record {
  begin_transaction = λ b. some (record b { waiting = [] });
  produce_sync = λ r b. (record b { waiting = b.waiting ++ r ∷ [] }, true);
  try_abort = λ b. record b { waiting = [] };
  try_commit = λ b. (record b { shown = b.shown ++ b.waiting; waiting = [] }, b.reachable);
}

client-IsTransactional : IsTransactional client (λ b. b.shown) (λ b. b.waiting)
client-IsTransactional = record {
  begins = λ b b' e. ground arith;
  holds_back = λ r b. refl;
  writes = λ r b e. refl;
  aborts = λ b. refl;
  commits = λ b e. refl;
  all_or_nothing = λ b e. inr refl;
}

abbrev unanswered : Broker
unanswered = record { shown = []; waiting = []; reachable = false }

produce_in_txn-IsAtomic_example :
    IsAtomic
      (λ b. b.shown)
      (encode bytes schemas 7 65)
      "game.broadcast"
      "rotme"
      unanswered
      (produce_in_txn bytes client schemas "game.broadcast" "rotme" 7 65 unanswered)
produce_in_txn-IsAtomic_example =
    produce_in_txn-IsAtomic bytes client (λ b. b.shown) (λ b. b.waiting) client-IsTransactional
      schemas "game.broadcast" "rotme" 7 65 unanswered

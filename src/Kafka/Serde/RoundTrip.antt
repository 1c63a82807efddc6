-- ===== src/Kafka/Serde/RoundTrip.antt =====
-- The wire format of option-b/internal/kafka/serde.go, written and read.
use lotr_kafka_strategy_game.Prelude.{
  ℕ, ◌%◌, ◌^◌, ◌<◌, ◌≡◌, refl, ap, subst, ◌∙◌, ◌↔◌, Option, some, Option-cases, inl, inr, List, [],
  ◌∷◌, arith, All,
}
use lotr_kafka_strategy_game.Prelude.Results.{ok}
use lotr_kafka_strategy_game.Kafka.Serde.{Avro, header, schema_id, split_header, encode, decode}

split_header-header :
    (id : ℕ) (payload : List ℕ) → split_header (header id payload) ≡ some (id % 2 ^ 32, payload)
unfolding split_header header
split_header-header id payload = ground arith

abbrev pub IsByte : ℕ → Type 0
IsByte b = b < 256

header-schema_id :
    (a b c d : ℕ) (payload : List ℕ)
    → IsByte a
    → IsByte b
    → IsByte c
    → IsByte d
    → (schema_id a b c d < 2 ^ 32)
      × (0 ∷ a ∷ b ∷ c ∷ d ∷ payload ≡ header (schema_id a b c d) payload)
unfolding header
header-schema_id a b c d payload ha hb hc hd = (omega arith, ground arith)

split_header-ok :
    (bytes : List ℕ) (id : ℕ) (payload : List ℕ)
    → All IsByte bytes
    → split_header bytes ≡ some (id, payload)
    → (id < 2 ^ 32) × (bytes ≡ header id payload)
unfolding split_header header
split_header-ok (m ∷ a ∷ b ∷ c ∷ d ∷ rest) id payload (hm, (ha, (hb, (hc, (hd, h))))) e =
    let (small, same) = header-schema_id a b c d rest ha hb hc hd in ground (arith, small, same)
split_header-ok [] id payload h e = absurd (cc e)
split_header-ok (m ∷ []) id payload h e = absurd (cc e)
split_header-ok (m ∷ a ∷ []) id payload h e = absurd (cc e)
split_header-ok (m ∷ a ∷ b ∷ []) id payload h e = absurd (cc e)
split_header-ok (m ∷ a ∷ b ∷ c ∷ []) id payload h e = absurd (cc e)

-- Of byte strings, the reader takes exactly those that the writer makes from a 32-bit id, and gives
-- back the id and the payload; all others, short or without the magic byte, are refused.
pub split_header_iff :
    (bytes : List ℕ) (id : ℕ) (payload : List ℕ)
    → All IsByte bytes
    → (split_header bytes ≡ some (id, payload)) ↔ ((id < 2 ^ 32) × (bytes ≡ header id payload))
split_header_iff bytes id payload h = (
  split_header-ok bytes id payload h,
  λ (small, e).
      rw e (split_header-header id payload ∙ ap (λ n. some (n, payload)) (omega (arith, small))),
)

module _ {Schema Value : Type 0} (avro : Avro Schema Value) where
  -- What the Avro library promises: a record that it wrote under a schema is read back under it.
  abbrev pub ReadsBack : Type 0
  ReadsBack =
      (sc : Schema) (v : Value) (payload : List ℕ)
      → avro.marshal sc v ≡ some payload
      → avro.unmarshal sc payload ≡ some v

  encode-ok :
      (schemas : ℕ → Option Schema) (id : ℕ) (v : Value) (bytes : List ℕ)
      → encode avro schemas id v ≡ ok bytes
      → (sc : Schema) × (payload : List ℕ) × (schemas id ≡ some sc)
        × (avro.marshal sc v ≡ some payload)
        × (header id payload ≡ bytes)
  unfolding encode
  encode-ok schemas id v bytes e = elim (Option-cases (schemas id)) [
    | inl n ↦ absurd (cc (rw (n, encode) at e))
    | inr (sc, q) ↦ elim (Option-cases (avro.marshal sc v)) [
      | inl n ↦ absurd (cc (rw (q, n, encode) at e))
      | inr (payload, p) ↦ (sc, payload, q, p, cc (rw (q, p, encode) at e))
    ]
  ]

  decode-ok :
      (schemas : ℕ → Option Schema) (bytes : List ℕ) (id : ℕ) (payload : List ℕ) (sc : Schema)
      (v : Value)
      → split_header bytes ≡ some (id, payload)
      → schemas id ≡ some sc
      → avro.unmarshal sc payload ≡ some v
      → decode avro schemas bytes ≡ ok (id, v)
  unfolding decode
  decode-ok schemas bytes id payload sc v s q u =
      rw (s, decode) (rw (q, decode) (rw (u, decode) refl))

  -- A record encoded under a 32-bit schema id is decoded to the same id and the same record, where
  -- the Avro library reads back what it writes.
  pub decode-encode :
      ReadsBack
      → (schemas : ℕ → Option Schema) (id : ℕ) (v : Value) (bytes : List ℕ) → id < 2 ^ 32
      → encode avro schemas id v ≡ ok bytes
      → decode avro schemas bytes ≡ ok (id, v)
  decode-encode reads schemas id v bytes small e =
      let (sc, payload, q, p, same) = encode-ok schemas id v bytes e in
      let s : split_header (header id payload) ≡ some (id, payload) =
        split_header-header id payload ∙ ap (λ n. some (n, payload)) (omega (arith, small)) in
      subst (λ bs. decode avro schemas bs ≡ ok (id, v)) same
        (decode-ok schemas (header id payload) id payload sc v s q (reads sc v payload p))

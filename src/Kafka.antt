-- ===== src/Kafka.antt =====
-- option-b/internal/kafka: the Avro codec in the wire format of the schema registry, the schemas that
-- are loaded at the start, and the transactional producer.
pub mod Serde
pub mod Registry
pub mod Producer
mod Tests

-- ===== src/Router/Views.antt =====
-- The views in the cache of option-b/internal/router/router.go under any sequence of its writes.
use lotr_kafka_strategy_game.Prelude.{ℕ, String, ◌≡◌, refl, List, [], ◌∷◌}
use lotr_kafka_strategy_game.Router.{Cache, zero_cache, update, record_detection, dark_ring_region}

pub data Write : Type 0 where
  an_update : ℕ → String → List String → ℕ → Write
  a_detection : ℕ → String → Write

unfoldable pub write : Write → Cache → Cache
unfolding update record_detection
write (an_update turn region route idx) c = update c turn region route idx
write (a_detection turn region) c = record_detection c turn region

unfoldable pub write_all : List Write → Cache → Cache
unfolding write
write_all [] c = c
write_all (x ∷ xs) c = write_all xs (write x c)

-- The region of the last detection among the writes, or the given one.
abbrev pub last_detected : List Write → String → String
last_detected [] r = r
last_detected (an_update turn region route idx ∷ xs) r = last_detected xs r
last_detected (a_detection turn region ∷ xs) r = last_detected xs region

write_all-dark :
    (xs : List Write) (c : Cache)
    → (dark_ring_region (write_all xs c) ≡ dark_ring_region c)
      × ((write_all xs c).dark.last_detected_region ≡ last_detected xs c.dark.last_detected_region)
unfolding write_all dark_ring_region
write_all-dark [] c = (refl, refl)
write_all-dark (an_update turn region route idx ∷ xs) c =
    write_all-dark xs (update c turn region route idx)
write_all-dark (a_detection turn region ∷ xs) c = write_all-dark xs (record_detection c turn region)

-- However the cache is written, from its zero value on, the dark side's ring bearer region stays
-- empty, and its detected region is that of the last detection written.
pub write_all_lem :
    (xs : List Write)
    → (dark_ring_region (write_all xs zero_cache) ≡ "")
      × ((write_all xs zero_cache).dark.last_detected_region ≡ last_detected xs "")
unfolding dark_ring_region
write_all_lem xs = write_all-dark xs zero_cache

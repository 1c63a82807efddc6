-- ===== src/Engine/Leader.antt =====
-- option-b/internal/engine/leader.go: the election of the leader. The consumer group is a parameter: it
-- calls back with the partitions of game.session that this instance is assigned or loses. The mutex
-- makes each call one step. Each goroutine of `runLeader` has the number of its context; it may return
-- at any time: after its context is cancelled, and before that if a consumer cannot be made.
pub mod Sole
use lotr_kafka_strategy_game.Prelude.{
  ℕ, ◌+◌, ◌≡◌, refl, inl, inr, ap, Bool, true, false, not, Option, none, some, List, [], ◌∷◌, eqb,
  select, if◌then◌else◌, Bool-cases, arith, subst,
}

-- `cancel` is the context that it cancels; `live` lists the contexts that are not cancelled, `running`
-- the goroutines of `runLeader` that have not returned, `next` is the number of the next.
pub record Coordinator : Type 0 where
  pub cancel : Option ℕ
  pub live : List ℕ
  pub running : List ℕ
  pub next : ℕ

abbrev pub new_coordinator : Coordinator
new_coordinator = record { cancel = none; live = []; running = []; next = 0 }

-- `becomeLeader`
unfoldable pub become_leader : Coordinator → Coordinator
become_leader c = elim c.cancel [
  | some _ ↦ c
  | none ↦ record {
    cancel = some c.next;
    live = c.next ∷ c.live;
    running = c.next ∷ c.running;
    next = c.next + 1;
  }
]

-- `resign`
unfoldable pub resign : Coordinator → Coordinator
resign c = elim c.cancel [
  | none ↦ c
  | some n ↦ record c { cancel = none; live = select (λ m. not (eqb m n)) c.live }
]

-- The loop of `assigned`, over the partitions.
unfoldable pub assigned : List ℕ → Coordinator → Coordinator
unfolding become_leader
assigned [] c = c
assigned (p ∷ ps) c = assigned ps (if eqb p 0 then become_leader c else c)

-- The loop of `revoked`.
unfoldable pub revoked : List ℕ → Coordinator → Coordinator
unfolding resign
revoked [] c = c
revoked (p ∷ ps) c = revoked ps (if eqb p 0 then resign c else c)

-- The goroutine `n` returns.
unfoldable pub return_of : ℕ → Coordinator → Coordinator
return_of n c = record c { running = select (λ m. not (eqb m n)) c.running }

-- A callback, the return of a goroutine, or the end of the instance's own context, after which the
-- loop of `runCoordinator` ends.
pub data GroupMsg : Type 0 where
  assigns revokes : List ℕ → GroupMsg
  returns : ℕ → GroupMsg
  cancels : GroupMsg

unfoldable pub coordinate : List GroupMsg → Coordinator → Coordinator
unfolding assigned revoked resign return_of
coordinate [] c = c
coordinate (assigns ps ∷ ms) c = coordinate ms (assigned ps c)
coordinate (revokes ps ∷ ms) c = coordinate ms (revoked ps c)
coordinate (returns n ∷ ms) c = coordinate ms (return_of n c)
coordinate (cancels ∷ ms) c = resign c

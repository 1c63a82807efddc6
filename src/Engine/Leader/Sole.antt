-- ===== src/Engine/Leader/Sole.antt =====
-- Which pipelines of an instance run (option-b/internal/engine/leader.go).
use lotr_kafka_strategy_game.Prelude.{
  ℕ, ◌+◌, ◌<◌, ◌≡◌, refl, ◌⊎◌, inl, inr, ap, sym, ◌∙◌, Bool, true, false, not, none, some, List, [],
  ◌∷◌, eqb, select, if◌then◌else◌, Bool-cases, arith, subst, All,
}
use lotr_kafka_strategy_game.Engine.Leader.{
  Coordinator, new_coordinator, become_leader, resign, assigned, revoked, return_of, GroupMsg,
  assigns, revokes, returns, cancels, coordinate,
}

-- Who holds the partition 0, by the callbacks alone.
abbrev pub holds_zero : List ℕ → Bool
holds_zero [] = false
holds_zero (p ∷ ps) = if eqb p 0 then true else holds_zero ps

abbrev pub leads : List GroupMsg → Bool → Bool
leads [] b = b
leads (assigns ps ∷ ms) b = leads ms (if holds_zero ps then true else b)
leads (revokes ps ∷ ms) b = leads ms (if holds_zero ps then false else b)
leads (returns n ∷ ms) b = leads ms b
leads (cancels ∷ ms) b = false

-- The goroutines that returned, before and among the messages.
abbrev pub returned : List GroupMsg → List ℕ → List ℕ
returned [] gone = gone
returned (assigns ps ∷ ms) gone = returned ms gone
returned (revokes ps ∷ ms) gone = returned ms gone
returned (returns n ∷ ms) gone = returned ms (n ∷ gone)
returned (cancels ∷ ms) gone = gone

abbrev pub listed : List ℕ → ℕ → Bool
listed [] n = false
listed (m ∷ ms) n = if eqb m n then true else listed ms n

-- The pipelines that run and are not told to stop.
abbrev pub at_work : Coordinator → List ℕ
at_work c = select (λ n. listed c.live n) c.running

-- While the instance leads, one context is not cancelled, and its pipeline alone is at work, unless it
-- returned; while it does not, every context is cancelled, and no pipeline is at work.
abbrev pub IsSole : Bool → List ℕ → Coordinator → Type 0
IsSole true gone c =
    (n : ℕ) × (c.cancel ≡ some n)
    × (c.live ≡ n ∷ [])
    × ((at_work c ≡ n ∷ []) ⊎ ((at_work c ≡ []) × (listed gone n ≡ true)))
IsSole false gone c = (c.cancel ≡ none) × (c.live ≡ []) × (at_work c ≡ [])

-- Every goroutine was started before the next.
abbrev IsOlder : Coordinator → Type 0
IsOlder c = All (λ n. n < c.next) c.running

none_listed : (ns : List ℕ) → select (λ n. listed [] n) ns ≡ []
none_listed [] = refl
none_listed (n ∷ ns) = none_listed ns

-- A new number is none of the old.
none_new :
    (k : ℕ) (live ns : List ℕ)
    → live ≡ []
    → All (λ n. n < k) ns
    → select (λ n. listed (k ∷ live) n) ns ≡ []
none_new k live [] e h = refl
none_new k live (n ∷ ns) e (h, hs) =
    let other : listed (k ∷ live) n ≡ false =
      subst (λ l. listed (k ∷ l) n ≡ false) (sym e) (ground (arith, h)) in
    rw other (none_new k live ns e hs)

older : (k : ℕ) (ns : List ℕ) → All (λ n. n < k) ns → All (λ n. n < k + 1) ns
older k [] h = tt
older k (n ∷ ns) (h, hs) = (omega arith, older k ns hs)

become_leader-IsSole :
    (b : Bool) (gone : List ℕ) (c : Coordinator)
    → IsOlder c
    → IsSole b gone c
    → IsSole true gone (become_leader c) × IsOlder (become_leader c)
unfolding become_leader
become_leader-IsSole true gone c o (n, e, l, w) = rw (e, become_leader) ((n, e, l, w), o)
become_leader-IsSole false gone c o (e, l, w) =
    let same : eqb c.next c.next ≡ true = ground arith in
    rw (e, same, become_leader)
      (
        (
          c.next,
          refl,
          ap (λ ns. c.next ∷ ns) l,
          inl (ap (λ ns. c.next ∷ ns) (none_new c.next c.live c.running l o)),
        ),
        (omega arith, older c.next c.running o),
      )

only_gone : (n : ℕ) → select (λ m. not (eqb m n)) (n ∷ []) ≡ []
only_gone n = ground arith

resign-IsSole :
    (b : Bool) (gone : List ℕ) (c : Coordinator)
    → IsOlder c
    → IsSole b gone c
    → IsSole false gone (resign c) × IsOlder (resign c)
unfolding resign
resign-IsSole true gone c o (n, e, l, w) =
    let stopped : select (λ m. not (eqb m n)) c.live ≡ [] =
      subst (λ ns. select (λ m. not (eqb m n)) ns ≡ []) (sym l) (only_gone n) in
    rw (e, resign)
      (
        (
          refl,
          stopped,
          subst (λ ns. select (λ m. listed ns m) c.running ≡ []) (sym stopped)
              (none_listed c.running),
        ),
        o,
      )
resign-IsSole false gone c o (e, l, w) = rw (e, resign) ((e, l, w), o)

select-twice : (f g : ℕ → Bool) (ns : List ℕ) → select f (select g ns) ≡ select g (select f ns)
select-twice f g [] = refl
select-twice f g (n ∷ ns) = elim (Bool-cases (f n)) [
  | inl t ↦ elim (Bool-cases (g n)) [
    | inl u ↦ rw (t, u) (rw t (ap (λ xs. n ∷ xs) (select-twice f g ns)))
    | inr u ↦ rw (t, u) (select-twice f g ns)
  ]
  | inr t ↦ elim (Bool-cases (g n)) [
    | inl u ↦ rw (t, u) (rw t (select-twice f g ns))
    | inr u ↦ rw (t, u) (select-twice f g ns)
  ]
]

older-select :
    (k : ℕ) (f : ℕ → Bool) (ns : List ℕ) → All (λ n. n < k) ns → All (λ n. n < k) (select f ns)
older-select k f [] h = tt
older-select k f (n ∷ ns) (h, hs) = elim (Bool-cases (f n)) [
  | inl t ↦ rw t (h, older-select k f ns hs)
  | inr t ↦ rw t (older-select k f ns hs)
]

return_of-IsSole :
    (m : ℕ) (b : Bool) (gone : List ℕ) (c : Coordinator)
    → IsOlder c
    → IsSole b gone c
    → IsSole b (m ∷ gone) (return_of m c) × IsOlder (return_of m c)
unfolding return_of
return_of-IsSole m false gone c o (e, l, w) = (
  (
    e,
    l,
    select-twice (λ n. listed c.live n) (λ n. not (eqb n m)) c.running
        ∙ ap (λ ns. select (λ n. not (eqb n m)) ns) w,
  ),
  older-select c.next (λ n. not (eqb n m)) c.running o,
)
return_of-IsSole m true gone c o (n, e, l, w) =
    let swap = select-twice (λ k. listed c.live k) (λ k. not (eqb k m)) c.running in
    (
      (
        n,
        e,
        l,
        elim w [
          | inr (idle, old) ↦
              inr (swap ∙ ap (λ ns. select (λ k. not (eqb k m)) ns) idle, ground (arith, old))
          | inl busy ↦
              let left = swap ∙ ap (λ ns. select (λ k. not (eqb k m)) ns) busy in
              elim (Bool-cases (eqb n m)) [
                | inl t ↦ inr (left ∙ rw t refl, ground (arith, t))
                | inr t ↦ inl (left ∙ rw t refl)
              ]
        ],
      ),
      older-select c.next (λ k. not (eqb k m)) c.running o,
    )

if_same : (b d : Bool) → (if b then d else d) ≡ d
if_same true d = refl
if_same false d = refl

assigned-IsSole :
    (ps : List ℕ) (b : Bool) (gone : List ℕ) (c : Coordinator)
    → IsOlder c
    → IsSole b gone c
    → IsSole (if holds_zero ps then true else b) gone (assigned ps c) × IsOlder (assigned ps c)
unfolding assigned
assigned-IsSole [] b gone c o h = (h, o)
assigned-IsSole (p ∷ ps) b gone c o h = elim (Bool-cases (eqb p 0)) [
  | inl e ↦
      let (now, older_now) = become_leader-IsSole b gone c o h in
      rw (e, assigned)
        (subst
          (λ x.
            IsSole x gone (assigned ps (become_leader c)) × IsOlder (assigned ps (become_leader c)))
          (if_same (holds_zero ps) true)
          (assigned-IsSole ps true gone (become_leader c) older_now now))
  | inr e ↦ rw (e, assigned) (assigned-IsSole ps b gone c o h)
]

revoked-IsSole :
    (ps : List ℕ) (b : Bool) (gone : List ℕ) (c : Coordinator)
    → IsOlder c
    → IsSole b gone c
    → IsSole (if holds_zero ps then false else b) gone (revoked ps c) × IsOlder (revoked ps c)
unfolding revoked
revoked-IsSole [] b gone c o h = (h, o)
revoked-IsSole (p ∷ ps) b gone c o h = elim (Bool-cases (eqb p 0)) [
  | inl e ↦
      let (now, older_now) = resign-IsSole b gone c o h in
      rw (e, revoked)
        (subst (λ x. IsSole x gone (revoked ps (resign c)) × IsOlder (revoked ps (resign c)))
          (if_same (holds_zero ps) false) (revoked-IsSole ps false gone (resign c) older_now now))
  | inr e ↦ rw (e, revoked) (revoked-IsSole ps b gone c o h)
]

coordinate-IsSole :
    (ms : List GroupMsg) (b : Bool) (gone : List ℕ) (c : Coordinator)
    → IsOlder c
    → IsSole b gone c
    → IsSole (leads ms b) (returned ms gone) (coordinate ms c)
unfolding coordinate
coordinate-IsSole [] b gone c o h = h
coordinate-IsSole (assigns ps ∷ ms) b gone c o h =
    let (now, older_now) = assigned-IsSole ps b gone c o h in
    coordinate-IsSole ms _ gone _ older_now now
coordinate-IsSole (revokes ps ∷ ms) b gone c o h =
    let (now, older_now) = revoked-IsSole ps b gone c o h in
    coordinate-IsSole ms _ gone _ older_now now
coordinate-IsSole (returns n ∷ ms) b gone c o h =
    let (now, older_now) = return_of-IsSole n b gone c o h in
    coordinate-IsSole ms b (n ∷ gone) _ older_now now
coordinate-IsSole (cancels ∷ ms) b gone c o h = (resign-IsSole b gone c o h).0

-- After any sequence of callbacks and of returns of pipelines: if the instance holds partition 0 (it
-- was assigned, and neither revoked since nor stopped), exactly one context is not cancelled, and its
-- pipeline is the only one that runs without being told to stop; or no pipeline does, and that one has
-- returned. If it does not hold the partition, every context is cancelled.
pub coordinate-leads :
    (ms : List GroupMsg) → IsSole (leads ms false) (returned ms []) (coordinate ms new_coordinator)
coordinate-leads ms = coordinate-IsSole ms false [] new_coordinator tt (refl, refl, refl)

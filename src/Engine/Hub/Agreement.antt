-- ===== src/Engine/Hub/Agreement.antt =====
-- A list of items that is taken from one map and written to another (the snapshots of
-- option-b/internal/engine/publish.go and hub.go), for entries `V` and items `S` of any kind.
pub mod Written
pub mod Snapshot
use lotr_kafka_strategy_game.Prelude.{
  String, ◌≡◌, refl, sym, subst, ◌∙◌, ap, inl, inr, Option, none, some, List, [], ◌∷◌, ◌==◌, All,
  Dict, Has, Has_of_some, Has-insert, insert, Option-cases, text_cases, eq_self, if◌then◌else◌,
}
use lotr_kafka_strategy_game.Prelude.Steps.Rules.{some_eq}
use lotr_kafka_strategy_game.Game.WellFormed.Complete.{All-map}

module _ {V S : Type 0} (key : S → String) (item : String → V → S) (write : S → V → V)
    (key-item : (k : String) (v : V) → key (item k v) ≡ k)
    (item-write : (s : S) (v : V) → item (key s) (write s v) ≡ s) where
  -- The item for one key.
  abbrev pub item_of : Dict V → String → Option S
  item_of m k = elim (m k) [ none ↦ none | some v ↦ some (item k v) ]

  -- The items for some keys, in their order; `none` if one has no entry.
  unfoldable pub items_of : Dict V → List String → Option (List S)
  items_of m [] = some []
  items_of m (k ∷ ks) = elim (m k) [
    | none ↦ none
    | some v ↦ elim (items_of m ks) [ none ↦ none | some rest ↦ some (item k v ∷ rest) ]
  ]

  abbrev pub noted : S → Dict V → Dict V
  noted s m = elim (m (key s)) [ none ↦ m | some v ↦ insert m (key s) (write s v) ]

  unfoldable pub note_items : List S → Dict V → Dict V
  note_items [] m = m
  note_items (s ∷ ss) m = note_items ss (noted s m)

  -- The map says what the item says.
  abbrev Says : Dict V → S → Type 0
  Says m s = item_of m (key s) ≡ some s

  noted-Has : (s : S) (m : Dict V) (k : String) → Has m k → Has (noted s m) k
  noted-Has s m k h = elim (Option-cases (m (key s))) [
    | inl n ↦ rw (n, noted) h
    | inr (v, e) ↦ rw (e, noted) (Has-insert m (key s) k (write s v) h)
  ]

  noted-own : (s : S) (m : Dict V) → Has m (key s) → Says (noted s m) s
  noted-own s m h = elim (Option-cases (m (key s))) [
    | inl n ↦ absurd (h n)
    | inr (v, e) ↦ rw (e, noted) (rw (eq_self (key s), item_of) (ap (λ x. some x) (item-write s v)))
  ]

  -- A write of what `o` says keeps what is said already.
  noted-other :
      (o : Dict V) (s t : S) (m : Dict V) → Says o s → Says o t → Says m t → Says (noted s m) t
  noted-other o s t m hs ht old = elim (Option-cases (m (key s))) [
    | inl n ↦ rw (n, noted) old
    | inr (v, e) ↦ elim (text_cases (key s) (key t)) [
      | inr (f, p) ↦ rw (e, noted) (rw (f, item_of) old)
      | inl (q, p) ↦
          let same : s ≡ t =
            some_eq (sym hs ∙ subst (λ k. item_of o (key s) ≡ item_of o k) p refl ∙ ht) in
          subst (λ x. Says (noted s m) x) same (noted-own s m (Has_of_some (m (key s)) e))
    ]
  ]

  note_items-keeps :
      (o : Dict V) (ss : List S) (t : S) (m : Dict V)
      → All (Says o) ss
      → Says o t
      → Says m t
      → Says (note_items ss m) t
  unfolding note_items
  note_items-keeps o [] t m hs ht old = old
  note_items-keeps o (s ∷ ss) t m (h, hs) ht old =
      note_items-keeps o ss t (noted s m) hs ht (noted-other o s t m h ht old)

  note_items-Says :
      (o : Dict V) (ss : List S) (m : Dict V)
      → All (Says o) ss
      → All (λ s. Has m (key s)) ss
      → All (Says (note_items ss m)) ss
  unfolding note_items
  note_items-Says o [] m hs there = tt
  note_items-Says o (s ∷ ss) m (h, hs) (t, ts) = (
    note_items-keeps o ss s (noted s m) hs h (noted-own s m t),
    note_items-Says o ss (noted s m) hs (All-map ss (λ x p. noted-Has s m (key x) p) ts),
  )

  -- What the items taken from a map are, item by item.
  items_of-cons :
      (o : Dict V) (k : String) (ks : List String) (ss : List S)
      → items_of o (k ∷ ks) ≡ some ss
      → (s : S) × (rest : List S) × (key s ≡ k)
        × Says o s
        × (items_of o ks ≡ some rest)
        × (ss ≡ s ∷ rest)
  unfolding items_of
  items_of-cons o k ks ss e = elim (Option-cases (o k)) [
    | inl n ↦ absurd (cc (rw (n, items_of) at e))
    | inr (v, q) ↦ elim (Option-cases (items_of o ks)) [
      | inl n ↦ absurd (cc (rw (q, n, items_of) at e))
      | inr (rest, p) ↦ (
        item k v,
        rest,
        key-item k v,
        subst (λ x. item_of o x ≡ some (item k v)) (sym (key-item k v)) (rw (q, item_of) refl),
        p,
        some_eq (sym (rw (q, p, items_of) at e)),
      )
    ]
  ]

  items_of-again :
      (n : Dict V) (k : String) (ks : List String) (s : S) (rest : List S)
      → key s ≡ k
      → Says n s
      → items_of n ks ≡ some rest
      → items_of n (k ∷ ks) ≡ some (s ∷ rest)
  unfolding items_of
  items_of-again n k ks s rest e says more = elim (Option-cases (n k)) [
    | inl m ↦ absurd (cc (rw (m, item_of) at (subst (λ x. item_of n x ≡ some s) e says)))
    | inr (v, q) ↦
        let same : item k v ≡ s =
          some_eq (rw (q, item_of) at (subst (λ x. item_of n x ≡ some s) e says)) in
        rw (q, more, items_of) (ap (λ x. some (x ∷ rest)) same)
  ]

  items_of-Says :
      (o : Dict V) (ks : List String) (ss : List S) → items_of o ks ≡ some ss → All (Says o) ss
  unfolding items_of
  items_of-Says o [] ss e = subst (All (Says o)) (some_eq e) tt
  items_of-Says o (k ∷ ks) ss e =
      let (s, rest, own, says, more, same) = items_of-cons o k ks ss e in
      rw same (says, items_of-Says o ks rest more)

  items_of-Has :
      (o m : Dict V) (ks : List String) (ss : List S)
      → items_of o ks ≡ some ss
      → All (Has m) ks
      → All (λ s. Has m (key s)) ss
  unfolding items_of
  items_of-Has o m [] ss e h = subst (All (λ s. Has m (key s))) (some_eq e) tt
  items_of-Has o m (k ∷ ks) ss e (h, hs) =
      let (s, rest, own, says, more, same) = items_of-cons o k ks ss e in
      rw same (subst (Has m) (sym own) h, items_of-Has o m ks rest more hs)

  items_of-reads :
      (o n : Dict V) (ks : List String) (ss : List S)
      → items_of o ks ≡ some ss
      → All (Says n) ss
      → items_of n ks ≡ some ss
  unfolding items_of
  items_of-reads o n [] ss e h = e
  items_of-reads o n (k ∷ ks) ss e h =
      let (s, rest, own, says, more, same) = items_of-cons o k ks ss e in
      let (now, later) : Says n s × All (Says n) rest = subst (All (Says n)) same h in
      subst (λ x. items_of n (k ∷ ks) ≡ some x) (sym same)
        (items_of-again n k ks s rest own now (items_of-reads o n ks rest more later))

  items_of-HasKeys :
      (o : Dict V) (ks : List String) (ss : List S) → items_of o ks ≡ some ss → All (Has o) ks
  unfolding items_of
  items_of-HasKeys o [] ss e = tt
  items_of-HasKeys o (k ∷ ks) ss e =
      let (s, rest, own, says, more, same) = items_of-cons o k ks ss e in
      (
        λ n. absurd (cc (rw (n, item_of) at (subst (λ x. item_of o x ≡ some s) own says))),
        items_of-HasKeys o ks rest more,
      )

  -- Items taken from one map for some keys, and written to a map that has an item for each of the
  -- keys, are what is taken from that map.
  pub items_of-note_items :
      (o m : Dict V) (ks : List String) (ss old : List S)
      → items_of o ks ≡ some ss
      → items_of m ks ≡ some old
      → items_of (note_items ss m) ks ≡ some ss
  items_of-note_items o m ks ss old e had = items_of-reads o (note_items ss m) ks ss e (
      note_items-Says o ss m (items_of-Says o ks ss e)
        (items_of-Has o m ks ss e (items_of-HasKeys m ks old had)))

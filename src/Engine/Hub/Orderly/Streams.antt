-- ===== src/Engine/Hub/Orderly/Streams.antt =====
-- That the streams of option-b/internal/engine/hub.go are told apart by their addresses, and that
-- `ctx.Done()` closes each of them once.
use lotr_kafka_strategy_game.Prelude.{
  String, ◌≡◌, refl, ◌∙◌, subst, inl, inr, Bool, true, false, not, some, List, [], ◌∷◌, ◌==◌, arith,
  All, contains, Bool-cases, eq_iff,
}
use lotr_kafka_strategy_game.Prelude.Steps.Rules.{some_eq}
use lotr_kafka_strategy_game.Engine.Hub.{
  player_dark, SseClient, Hub, has_client, add_client, remove_client, enter, close_stream, drop,
}
use lotr_kafka_strategy_game.Engine.Hub.Messages.{close_all, stop}
use lotr_kafka_strategy_game.Engine.Hub.Orderly.{
  IsMember, IsOrderly, IsMember-closed, others-closed,
}

-- No address comes twice.
abbrev pub AreDistinct : List SseClient → Type 0
AreDistinct [] = Unit
AreDistinct (c ∷ cs) = (has_client cs c ≡ false) × AreDistinct cs

abbrev pub AreApart : Hub → Type 0
AreApart h = AreDistinct h.light × AreDistinct h.dark

has_client-remove :
    (cs : List SseClient) (c d : SseClient)
    → has_client cs d ≡ false
    → has_client (remove_client cs c) d ≡ false
has_client-remove [] c d h = h
has_client-remove (x ∷ xs) c d h = elim (Bool-cases (x.address == d.address)) [
  | inl t ↦ absurd (cc (rw t at h))
  | inr f ↦ elim (Bool-cases (x.address == c.address)) [
    | inl t ↦ rw t (has_client-remove xs c d (rw f at h))
    | inr g ↦ rw g (rw f (has_client-remove xs c d (rw f at h)))
  ]
]

remove_client-AreDistinct :
    (cs : List SseClient) (c : SseClient) → AreDistinct cs → AreDistinct (remove_client cs c)
remove_client-AreDistinct [] c h = tt
remove_client-AreDistinct (x ∷ xs) c (h, hs) = elim (Bool-cases (x.address == c.address)) [
  | inl t ↦ rw t (remove_client-AreDistinct xs c hs)
  | inr f ↦ rw f (has_client-remove xs c x h, remove_client-AreDistinct xs c hs)
]

add_client-AreDistinct :
    (cs : List SseClient) (c : SseClient) → AreDistinct cs → AreDistinct (add_client cs c)
add_client-AreDistinct cs c h = elim (Bool-cases (has_client cs c)) [
  | inl b ↦ rw b h
  | inr b ↦ rw b (b, h)
]

pub enter-AreApart : (c : SseClient) (h : Hub) → AreApart h → AreApart (enter c h)
unfolding enter
enter-AreApart c h (l, d) = elim (Bool-cases (c.side == player_dark)) [
  | inl b ↦ rw (b, enter) (l, add_client-AreDistinct h.dark c d)
  | inr b ↦ rw (b, enter) (add_client-AreDistinct h.light c l, d)
]

-- A close leaves the sets alone.
close_stream-same :
    (c : SseClient) (h h' : Hub)
    → close_stream c h ≡ some h'
    → record h { closed = c.address ∷ h.closed } ≡ h'
unfolding close_stream
close_stream-same c h h' e = elim (Bool-cases (contains h.closed c.address)) [
  | inl b ↦ absurd (cc (rw (b, close_stream) at e))
  | inr b ↦ some_eq (rw (b, close_stream) at e)
]

-- What holds before a stream is dropped, and of the hub without it, holds afterwards.
pub drop_keeps :
    (P : Hub → Type 0) (c : SseClient) (h h' : Hub)
    → drop c h ≡ some h'
    → P h
    → P (record h { light = remove_client h.light c; closed = c.address ∷ h.closed })
    → P (record h { dark = remove_client h.dark c; closed = c.address ∷ h.closed })
    → P h'
unfolding drop
drop_keeps P c h h' e here light dark = elim (Bool-cases (has_client h.light c)) [
  | inl b ↦
      subst P
        (close_stream-same c (record h { light = remove_client h.light c }) h' (rw (b, drop) at e))
        light
  | inr b ↦ elim (Bool-cases (has_client h.dark c)) [
    | inl d ↦
        subst P
          (close_stream-same c (record h { dark = remove_client h.dark c }) h'
            (rw (b, d, drop) at e))
          dark
    | inr d ↦ subst P (some_eq (rw (b, d, drop) at e)) here
  ]
]

pub drop-AreApart : (c : SseClient) (h h' : Hub) → drop c h ≡ some h' → AreApart h → AreApart h'
drop-AreApart c h h' e (l, d) =
    drop_keeps AreApart c h h' e (l, d) (remove_client-AreDistinct h.light c l, d)
      (l, remove_client-AreDistinct h.dark c d)

-- The rest of a set after the close of its first stream.
rest-open :
    (sides : String → String) (dark : Bool) (closed : List String) (c : SseClient)
    (cs : List SseClient)
    → has_client cs c ≡ false
    → All (IsMember sides dark closed) cs
    → All (IsMember sides dark (c.address ∷ closed)) cs
rest-open sides dark closed c [] n h = tt
rest-open sides dark closed c (x ∷ xs) n (h, hs) = elim (Bool-cases (x.address == c.address)) [
  | inl t ↦ absurd (cc (rw t at n))
  | inr f ↦ (
    IsMember-closed sides dark closed c.address x h
        (ground (arith, f, eq_iff x.address c.address, eq_iff c.address x.address)),
    rest-open sides dark closed c xs (rw f at n) hs,
  )
]

not-not : (b : Bool) → b ≡ not (not b)
not-not true = refl
not-not false = refl

close_all_returns :
    (sides : String → String) (dark : Bool) (cs ds : List SseClient) (h : Hub)
    → AreDistinct cs
    → All (IsMember sides dark h.closed) cs
    → All (IsMember sides (not dark) h.closed) ds
    → (h' : Hub) × (close_all cs h ≡ some h') × All (IsMember sides (not dark) h'.closed) ds
unfolding close_all close_stream
close_all_returns sides dark [] ds h u m o = (h, refl, o)
close_all_returns sides dark (c ∷ cs) ds h (n, u) ((s, d, is_open), m) o =
    let after : Hub = record h { closed = c.address ∷ h.closed } in
    let (h', e, others) =
      close_all_returns sides dark cs ds after u (rest-open sides dark h.closed c cs n m)
        (others-closed sides (not dark) h.closed c.address ds (d ∙ not-not dark) o) in
    rw (is_open, close_all) (h', e, others)

-- The case of `ctx.Done()` closes every stream, and none that is closed.
pub stop_returns :
    (sides : String → String) (gone : List String) (h : Hub)
    → IsOrderly sides gone h
    → AreApart h
    → (h' : Hub) × (stop h ≡ some h')
unfolding stop
stop_returns sides gone h o (l, d) =
    let (h1, e, others) = close_all_returns sides false h.light h.dark h l o.lights o.darks in
    let (h2, q, _) = close_all_returns sides true h.dark [] h1 d others tt in rw (e, stop) (h2, q)

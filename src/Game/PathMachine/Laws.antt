-- ===== src/Game/PathMachine/Laws.antt =====
-- The state machine of a path (option-b/internal/game/path.go) under any sequence of its operations.
use lotr_kafka_strategy_game.Prelude.{
  ◌≤◌, ◌<◌, String, ◌≡◌, ◌≢◌, refl, true, List, [], ◌∷◌, arith, eq_iff,
}
use lotr_kafka_strategy_game.Game.State.{
  PathStatus, open_path, threatened, blocked, temp_open, PathState,
}
use lotr_kafka_strategy_game.Game.PathMachine.{
  block, threat, clear, open_temporarily, search_once, corrupt, tick_temp_open, passable,
}

-- The operations that the game applies to a path; a block is made by the unit of that id.
pub data Op : Type 0 where
  do_block : String → Op
  do_threat do_clear do_open do_search do_corrupt do_tick : Op

unfoldable pub apply : Op → PathState → PathState
unfolding block threat clear open_temporarily search_once corrupt tick_temp_open
apply (do_block by) p = block p by
apply do_threat p = threat p
apply do_clear p = clear p
apply do_open p = (open_temporarily p).0
apply do_search p = search_once p
apply do_corrupt p = corrupt p
apply do_tick p = tick_temp_open p

unfoldable pub apply_all : List Op → PathState → PathState
unfolding apply
apply_all [] p = p
apply_all (op ∷ ops) p = apply_all ops (apply op p)

-- A block has the name of a unit, which is not empty.
abbrev pub IsNamed : Op → Type 0
IsNamed (do_block by) = by ≢ ""
IsNamed _ = Unit

abbrev pub AllNamed : List Op → Type 0
AllNamed [] = Unit
AllNamed (op ∷ ops) = IsNamed op × AllNamed ops

pub record IsValid (p : PathState) : Type 0 where
  pub watched : p.surveillance_level ≤ 3
  pub timed : p.status ≡ temp_open → (0 < p.temp_open_turns) × (p.temp_open_turns ≤ 2)
  pub untimed : p.status ≢ temp_open → p.temp_open_turns ≡ 0
  pub held : (p.status ≡ blocked) → p.blocked_by ≢ ""
  pub reopened : (p.status ≡ temp_open) → p.blocked_by ≢ ""
  pub free : (p.status ≡ open_path) → p.blocked_by ≡ ""
  pub flagged : (p.status ≡ threatened) → p.blocked_by ≡ ""

apply-IsValid : (op : Op) (p : PathState) → IsNamed op → IsValid p → IsValid (apply op p)
unfolding apply
apply-IsValid (do_block by) p n v = ground arith
apply-IsValid do_tick p n v = ground (arith, eq_iff p.blocked_by "")
apply-IsValid _ p n v = ground arith

-- From a valid path, every sequence of operations, whose blocks name a unit, leads to a valid path:
-- surveillance stays at most 3, the timer is 1 or 2 while the path is temporarily open and 0
-- otherwise, and the path has a holder while it is blocked or temporarily open and none otherwise.
pub apply_all-IsValid :
    (ops : List Op) (p : PathState) → AllNamed ops → IsValid p → IsValid (apply_all ops p)
unfolding apply_all
apply_all-IsValid [] p n v = v
apply_all-IsValid (op ∷ ops) p n v =
    apply_all-IsValid ops (apply op p) n.1 (apply-IsValid op p n.0 v)

apply-corrupted :
    (op : Op) (p : PathState) → p.surveillance_level ≡ 3 → (apply op p).surveillance_level ≡ 3
unfolding apply
apply-corrupted (do_block by) p h = ground arith
apply-corrupted _ p h = ground arith

apply_all-corrupted :
    (ops : List Op) (p : PathState)
    → p.surveillance_level ≡ 3
    → (apply_all ops p).surveillance_level ≡ 3
unfolding apply_all
apply_all-corrupted [] p h = h
apply_all-corrupted (op ∷ ops) p h = apply_all-corrupted ops (apply op p) (apply-corrupted op p h)

-- Corruption is permanent: after it the surveillance level is 3, whatever is done to the path.
pub corrupt_permanent :
    (ops : List Op) (p : PathState) → (apply_all ops (corrupt p)).surveillance_level ≡ 3
unfolding corrupt
corrupt_permanent ops p = apply_all-corrupted ops _ refl

-- The diagram of the statuses.
pub data Edge : PathStatus → PathStatus → Type 0 where
  stay : (s : PathStatus) → Edge s s
  close_open : Edge open_path blocked
  close_threatened : Edge threatened blocked
  raise : Edge open_path threatened
  calm : Edge threatened open_path
  release : Edge blocked open_path
  force : Edge blocked temp_open
  expire : Edge temp_open blocked

-- Every operation on a valid path keeps its status or follows an arrow of the diagram; a
-- temporary opening ends in a block, never in an open path.
pub apply-Edge : (op : Op) (p : PathState) → IsValid p → Edge p.status (apply op p).status
unfolding apply
apply-Edge (do_block by) p v = grind (arith, stay, close_open, close_threatened)
apply-Edge do_threat p v = grind (arith, stay, raise)
apply-Edge do_clear p v = grind (arith, stay, calm, release)
apply-Edge do_open p v = grind (arith, stay, force)
apply-Edge do_search p v = grind (arith, stay)
apply-Edge do_corrupt p v = stay p.status
apply-Edge do_tick p v = grind (arith, stay, expire, eq_iff)

-- A block that Gandalf opens is passable at once, is passable after one tick of the timer, and is
-- the same block again after the second.
pub open-tick-tick :
    (p : PathState)
    → p.status ≡ blocked
    → p.blocked_by ≢ ""
    → p.temp_open_turns ≡ 0
    → (passable (apply do_open p) ≡ true)
      × (passable (apply do_tick (apply do_open p)) ≡ true)
      × (apply do_tick (apply do_tick (apply do_open p)) ≡ p)
unfolding apply passable
open-tick-tick p b n z = ground (arith, eq_iff p.blocked_by "")

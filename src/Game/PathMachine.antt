-- ===== src/Game/PathMachine.antt =====
-- option-b/internal/game/path.go: the state machine of a path.
pub mod Laws
use lotr_kafka_strategy_game.Prelude.{
  ◌+◌, ◌-◌, String, Bool, true, false, ◌==◌, if◌then◌else◌, ltb, leb,
}
use lotr_kafka_strategy_game.Game.State.{
  PathStatus, open_path, threatened, blocked, temp_open, PathState,
}

-- A method that tests `p.Status` passes it to a helper by clauses.
block_from : PathStatus → String → PathState → PathState
block_from open_path by p = record p { status = blocked; blocked_by = by }
block_from threatened by p = record p { status = blocked; blocked_by = by }
block_from _ by p = p

unfoldable pub block : PathState → String → PathState
unfolding block_from
block p by_unit = block_from p.status by_unit p

threat_from : PathStatus → PathState → PathState
threat_from open_path p = record p { status = threatened }
threat_from _ p = p

unfoldable pub threat : PathState → PathState
unfolding threat_from
threat p = threat_from p.status p

clear_from : PathStatus → PathState → PathState
clear_from threatened p = record p { status = open_path; blocked_by = "" }
clear_from blocked p = record p { status = open_path; blocked_by = "" }
clear_from _ p = p

unfoldable pub clear : PathState → PathState
unfolding clear_from
clear p = clear_from p.status p

open_from : PathStatus → PathState → PathState × Bool
open_from blocked p = (record p { status = temp_open; temp_open_turns = 2 }, true)
open_from _ p = (p, false)

unfoldable pub open_temporarily : PathState → PathState × Bool
unfolding open_from
open_temporarily p = open_from p.status p

unfoldable pub search_once : PathState → PathState
search_once p =
    if ltb p.surveillance_level 3
    then record p { surveillance_level = p.surveillance_level + 1 }
    else p

unfoldable pub corrupt : PathState → PathState
corrupt p = record p { surveillance_level = 3 }

-- `p.TempOpenTurns--` and the test on it: at 0 and at 1 the counter falls to 0 or below.
tick_from : PathStatus → PathState → PathState
tick_from temp_open p =
    if leb (p.temp_open_turns - 1) 0
    then record p {
      status = if p.blocked_by == "" then open_path else blocked;
      temp_open_turns = 0;
    }
    else record p { temp_open_turns = p.temp_open_turns - 1 }
tick_from _ p = p

unfoldable pub tick_temp_open : PathState → PathState
unfolding tick_from
tick_temp_open p = tick_from p.status p

unfoldable pub passable : PathState → Bool
passable p = elim p.status [ blocked ↦ false | _ ↦ true ]

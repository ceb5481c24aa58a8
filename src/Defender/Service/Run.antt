-- ===== src/Defender/Service/Run.antt =====
-- defender/service.py: `main`, whose loop and whose HTTP handler take turns under the lock.
use k3df.Base.{ℕ, String, Option, none, List, Error}
use k3df.Defender.Config.{Config}
use k3df.Defender.Service.{Service, for_each}
use k3df.Defender.Service.Cycle.{World, Moment}
use k3df.Defender.Service.Tick.{tick, do_get}

-- A tick of the loop, or a request at a time, with its path and its header.
pub data Turn : Type 0 where
  tick_turn : Moment → Turn
  request : ℕ → String → Option String → Turn

unfoldable pub turn : World → Config → Turn → Service → Service × Option Error
turn w c (tick_turn m) s = tick w c m s
turn w c (request now path header) s = ((do_get now path header s).0, none)

-- The loop ends at the first exception of a tick.
unfoldable pub run : World → Config → List Turn → Service → Service × Option Error
run w c = for_each (turn w c)

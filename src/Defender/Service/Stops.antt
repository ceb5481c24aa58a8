-- ===== src/Defender/Service/Stops.antt =====
-- A request whose target cannot be split ends the defender: `tick` raises before it saves.
use k3df.Base.{
  ◌≡◌, refl, ap, ◌∙◌, true, String, some, List, ◌∷◌, ◌++◌, value_error, all, codes, ◌<>◌,
}
use k3df.Defender.Config.{Config}
use k3df.Defender.Collect.{follow}
use k3df.Defender.Collect.Pattern.{Entry, read_line}
use k3df.Defender.Collect.Url.{no_delimiter, odd_brackets}
use k3df.Defender.Collect.Sources.{access_log, read_sources}
use k3df.Defender.Collect.Odd.{urlsplit_odd, access_items_raised}
use k3df.Defender.Service.{Service}
use k3df.Defender.Service.Cycle.{World, Moment}
use k3df.Defender.Service.Tick.{tick}
use k3df.Defender.Service.Run.{Turn, tick_turn, turn, run}

-- If some line that the access log has new is a request whose target is two slashes and an
-- authority with one of the brackets and not the other, then a tick raises a ValueError, whatever
-- the other lines are, makes no call to the store, so that nothing is saved, and ends the run: a
-- run with any ticks and requests after it is this tick alone.
pub tick_stops :
    (w : World) (c : Config) (m : Moment) (rest : List Turn) (s : Service) (pre post : List String)
    (line netloc : String) (e : Entry)
    → w.library.lines (follow m.log s.runtime).1 ≡ pre ++ (line ∷ post)
    → read_line w.library.digit line ≡ some e
    → e.target ≡ "//" <> netloc
    → all no_delimiter (codes netloc) ≡ true
    → odd_brackets netloc ≡ true
    → (run w c (tick_turn m ∷ rest) s ≡ tick w c m s)
      × ((run w c (tick_turn m ∷ rest) s).1 ≡ some value_error)
      × ((run w c (tick_turn m ∷ rest) s).0.events ≡ s.events)
      × ((run w c (tick_turn m ∷ rest) s).0.last_reasoning_at ≡ s.last_reasoning_at)
unfolding run turn tick read_sources access_log
tick_stops w c m rest s pre post line netloc e lines read target plain odd =
    rw
      (
        lines,
        access_items_raised w.library c.access_log_path m.stamp pre post line e read (
            ap (k3df.Defender.Collect.Url.urlsplit w.library.checks) target
            ∙ urlsplit_odd w.library.checks netloc plain odd),
      )
      (refl, refl, refl, refl)

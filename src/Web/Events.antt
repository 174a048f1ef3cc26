-- ===== src/Web/Events.antt =====
-- handleEvents of web/web.go: the frames that are written to one client. `flushes` says of each
-- Flush, in order, whether it works; json.Marshal of the statistics is a parameter.
use tasker.Base.{Bool, true, false, List, [], ◌∷◌, ◌++◌, String}
use tasker.Sql.Statement.{Result, ok, err}
use tasker.Web.{Manager}

pub data Frame : Type 0 where
  stats_frame : String → Frame
  unavailable : Frame
  keepalive : Frame

-- What the loop's select finds; after the list the client is gone, which is ctx.Done.
pub data Tick : Type 0 where
  stats_tick heartbeat_tick : Tick

-- A stream: what was written and what is to become of the flushes to come. Where the list is at
-- its end they work.
pub record Stream (W : Type 0) : Type 0 where
  pub written : List Frame
  pub flushes : List Bool
  pub world : W

module _ {W : Type 0} where
  abbrev pub take_flush : List Bool → Stream W → Bool × Stream W
  take_flush [] s = (true, s)
  take_flush (b ∷ bs) s = (b, record s { flushes = bs })

  -- rc.Flush() == nil.
  unfoldable pub flush : Stream W → Bool × Stream W
  flush s = take_flush s.flushes s

  abbrev pub write_frame : Frame → Stream W → Stream W
  write_frame f s = record s { written = s.written ++ f ∷ [] }

module _ {W Q G J : Type 0} (m : Manager W Q G J) (marshal : G → Result String) where
  abbrev pub send_data : Stream W → Result String → Bool × Stream W
  send_data s (err e) = (true, s)
  send_data s (ok text) = flush (write_frame (stats_frame text) s)

  abbrev pub send_stats : Stream W → Result G × W → Bool × Stream W
  send_stats s (err e, w) = flush (write_frame unavailable (record s { world = w }))
  send_stats s (ok stats, w) = send_data (record s { world = w }) (marshal stats)

  unfoldable pub send : Stream W → Bool × Stream W
  send s = send_stats s (m.global_stats s.world)

  unfoldable pub on_tick : Tick → Stream W → Bool × Stream W
  unfolding send flush
  on_tick stats_tick s = send s
  on_tick heartbeat_tick s = flush (write_frame keepalive s)

  abbrev pub if_alive : (Stream W → Stream W) → Bool × Stream W → Stream W
  if_alive k (true, s) = k s
  if_alive k (false, s) = s

  unfoldable pub event_loop : List Tick → Stream W → Stream W
  unfolding on_tick
  event_loop [] s = s
  event_loop (t ∷ ticks) s = if_alive (event_loop ticks) (on_tick t s)

  unfoldable pub handle_events : List Tick → Stream W → Stream W
  unfolding event_loop send flush
  handle_events ticks s = if_alive (λ s. if_alive (event_loop ticks) (send s)) (flush s)

-- ===== src/Channel.antt =====
-- A Go channel that is only closed and waited for: close panics on one that is closed.
use tasker.Base.{Option, none, some}

pub data Channel : Type 0 where
  open_channel closed_channel : Channel

abbrev pub close_channel : Channel → Option Channel
close_channel open_channel = some closed_channel
close_channel closed_channel = none

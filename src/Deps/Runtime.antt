-- ===== src/Deps/Runtime.antt =====
-- All interfaces that the second task manager stands on, as one instance argument.
use mlua_scheduler.Deps.Mlua.{Mlua}
use mlua_scheduler.Deps.Channel.{Channels}
use mlua_scheduler.Deps.DelayQueue.{DelayQueues}
use mlua_scheduler.Deps.Futures.{Futures, Outcome}

pub record Runtime : Type 1 where
  pub mlua : Mlua
  pub open mlua use *
  pub channels : Channels
  pub open channels use *
  pub delays : DelayQueues
  pub open delays use *
  pub futures : Futures Thread Fut (Outcome Values Error)
  pub open futures use *

-- ===== src/Monitor/Sound/Announce.antt =====
-- The message that tells the account pool of a death.
use gptshare.Base.{Option}
use gptshare.Monitor.Types.{Store}

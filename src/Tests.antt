-- ===== src/Tests.antt =====
-- Concrete inputs: each theorem that is listed in Lib.antt and takes arguments, applied to some that meet
-- its hypotheses, and runs of the model on small states.
mod Fixtures
mod Wire
mod Invariant
mod Replies
mod Loop
mod Host
mod Transfers
mod Firmware
mod Driver
mod Watcher
mod Streams
mod CApi
mod Enumerator

-- ===== src/Tests.antt =====
-- Runs of the model on concrete inputs, and the properties applied to them.
mod Fixture
mod LinkedListRuns
mod CirBufferRuns
mod FramesRuns
mod SchedRuns
mod SemaphoreRuns
mod UserRuns
mod PagingRuns
mod InterruptRuns
mod IsolationRuns
mod ProcessRuns
mod ExitRuns
mod ForkRuns
mod BootRuns
mod ReadRuns

-- ===== src/Tests.antt =====
-- Concrete runs of the models.
mod Flow
mod Wire
mod Store
mod Hub
mod Runtime
mod Progress
mod Paging
mod Transcript
mod Replay
mod SessionList
mod Discover

-- ===== src/Outbox.antt =====
-- backend/app/domain/outbox/repository.py and backend/app/workers/__init__.py: the outbox.
pub mod Claims
pub mod Claimed
pub mod Worker
pub mod Settled
pub mod Promises
pub mod Promised

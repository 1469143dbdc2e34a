-- ===== src/Domain.antt =====
-- The pure domain: domain/gale.py, domain/signal.py, domain/state.py.
pub mod Gale
pub mod Signal
pub mod State

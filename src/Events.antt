-- ===== src/Events.antt =====
-- events::EventEmitter (include/libnode/detail/events/event_emitter.h).
pub mod Emitter
pub mod Arrays
pub mod Subscriptions
pub mod Refinement
pub mod Loop
pub mod Dispatch
pub mod Hazards
mod Tests

-- ===== src/ControlRoom.antt =====
-- The monitor of the control room (services/control-room/src).
pub mod Monitor
mod Tests

-- ===== src/Timer.antt =====
-- common/timer.h and common/timer.cpp: the timing wheel, and the timers by key on top of it.
pub mod Wheel
pub mod Handles
pub mod Service

-- ===== src/Players.antt =====
-- The player_list workers: the claim loop, and a job that fails again and again.
pub mod Loop
pub mod Blocked
pub mod Seeding
pub mod Seeded
mod Tests

-- ===== src/Home.antt =====
-- The information home: src/models/home/informationHome.ts.
mod Values
mod Widgets
mod Normalize
mod Validate
mod Limits
mod Fine
mod Normal
mod Sound
mod Tests

-- ===== src/Json/Total.antt =====
-- The parser ends within its fuel on every input below the limit of Parse.
pub mod Below
pub mod Steps
pub mod Parse

-- ===== src/Notes.antt =====
-- The notes application under realworldexamples/django, which uses the binding.
pub mod Store
pub mod Tags
pub mod Views
pub mod Listing

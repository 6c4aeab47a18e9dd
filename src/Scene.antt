-- ===== src/Scene.antt =====
-- src/scene.cpp and include/gisland/scene.hpp: the tree of primitives that a view shows.
pub mod Types

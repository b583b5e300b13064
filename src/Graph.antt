-- ===== src/Graph.antt =====
-- crates/rgit-graph: trees as flat lists of entries, their diff and three-way merge, and the
-- commit graph.
pub mod Tree
pub mod Merge
pub mod Diff
pub mod Index

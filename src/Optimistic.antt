-- ===== src/Optimistic.antt =====
-- internal/optimistic: a value under optimistic concurrency control, and the ordered set over it.
pub mod Value
pub mod OrderedSet

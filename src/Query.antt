-- ===== src/Query.antt =====
-- The nodes of a query plan (engine/agnostic/predicate.go, source.go and scanner.go).
pub mod Source
pub mod Sorters
pub mod Join
pub mod Order
pub mod Selectors
pub mod Plan
pub mod Tree
pub mod Reads
pub mod Where
pub mod Refinement
pub mod Lifecycle
pub mod Updates
pub mod Modify
use ramsql.Base.{List}
use ramsql.Base.Bytes.{Bytes}
use ramsql.Index.{Element}

-- What Exec returns: the names of the columns, and the rows.
pub record Result : Type 0 where
  pub cols : List Bytes
  pub rows : List Element

-- ===== src/Index/Laws.antt =====
-- The hash index as a map from keys to elements.
use ramsql.Base.{◌≡◌, ◌==◌, none, some, List, if◌then◌else◌, arith}
use ramsql.Base.Table.{find-put, find-erase}
use ramsql.Base.Outcome.{ok}
use ramsql.Value.{Value, Runtime}
use ramsql.Index.{Element, HashIndex, key_bytes, values_at, sum_of, add, remove, get}

module _ (rt : Runtime) (h h' : HashIndex) (e : Element) (key : List Value) where
  -- After a successful Add, Get of a key with the hash of the element's key gives that element, and
  -- Get of any other key gives what it gave before.
  get-add :
      (vs : List Value)
      → values_at e.tuple.values h.attrs ≡ ok vs
      → add rt h e ≡ ok h'
      → get rt h' key
        ≡ (if rt.hash (key_bytes rt vs) == rt.hash (key_bytes rt key) then some e else get rt h key)
  unfolding add get sum_of
  get-add vs p q =
      ground (arith, find-put (rt.hash (key_bytes rt vs)) (rt.hash (key_bytes rt key)) e h.m)

  -- After a successful Remove, Get of a key with the hash of the element's key gives nothing, and Get
  -- of any other key gives what it gave before.
  get-remove :
      (vs : List Value)
      → values_at e.tuple.values h.attrs ≡ ok vs
      → remove rt h e ≡ ok h'
      → get rt h' key
        ≡ (if rt.hash (key_bytes rt vs) == rt.hash (key_bytes rt key) then none else get rt h key)
  unfolding remove get sum_of
  get-remove vs p q =
      ground (arith, find-erase (rt.hash (key_bytes rt vs)) (rt.hash (key_bytes rt key)) h.m)
